-- ===== src/Dns/Spf.antt =====
-- merge_spf of src/data_platform/services/dns_records.py
pub mod Words
pub mod Merging
pub mod Rendering
pub mod Contract
use sicurre.Prelude.{
  ℕ, Bool, true, false, not, ◌&&◌, ◌||◌, List, [], ◌∷◌, ◌++◌, ◌==◌, if◌then◌else◌,
}
use sicurre.Prelude.Lists.{any}
use sicurre.Prelude.Text.{Text, codes, text_eq, is_space, join}
use sicurre.Dns.Records.{clean_str}

abbrev flush : Text → List Text → List Text
flush [] ws = ws
flush (c ∷ w) ws = (c ∷ w) ∷ ws

-- s.split(); the word that is being read comes first.
unfoldable pub tokens : Text → Text → List Text
tokens word [] = flush word []
tokens word (c ∷ s) =
    let next = tokens [] s in
    let more = tokens (word ++ (c ∷ [])) s in if is_space c then flush word next else more

abbrev pub words : Text → List Text
words s = tokens [] s

unfoldable pub routing_include : Text
routing_include = codes "include:_spf.mx.cloudflare.net"

unfoldable pub default_all : Text
default_all = codes "~all"

unfoldable pub spf_version : Text
spf_version = codes "v=spf1"

-- mechanism in WITHDRAWN_SPF_INCLUDES
unfoldable pub is_withdrawn : Text → Bool
is_withdrawn m =
    text_eq m (codes "include:spf.cloudflare.com") || text_eq m (codes "include:sicurre.com")

-- mechanism in ("-all", "~all", "?all", "+all")
unfoldable pub is_all : Text → Bool
is_all m =
    text_eq m (codes "-all")
    || (text_eq m (codes "~all") || (text_eq m (codes "?all") || text_eq m (codes "+all")))

unfoldable pub among : Text → List Text → Bool
among m ms = any (λ (x : Text). text_eq x m) ms

-- The mechanisms kept so far and the last all.
unfoldable pub take_mechanism : Text → List Text × Text → List Text × Text
take_mechanism m (ms, all_) =
    if is_all m
    then (ms, m)
    else if is_withdrawn m
    then (ms, all_)
    else if among m ms
    then (ms, all_)
    else (ms ++ (m ∷ []), all_)

unfoldable pub take_mechanisms : List Text → List Text × Text → List Text × Text
take_mechanisms [] acc = acc
take_mechanisms (m ∷ ms) acc = take_mechanisms ms (take_mechanism m acc)

unfoldable pub with_routing : List Text → List Text
with_routing ms = if among routing_include ms then ms else ms ++ (routing_include ∷ [])

-- f"v=spf1 {' '.join(mechanisms)} {all_mechanism}"
unfoldable pub render : List Text × Text → Text
render (ms, all_) = spf_version ++ 32 ∷ (join (32 ∷ []) (with_routing ms) ++ 32 ∷ all_)

unfoldable pub merge_parts : List Text → Text
unfolding render
merge_parts [] = spf_version ++ 32 ∷ (routing_include ++ 32 ∷ default_all)
merge_parts (version ∷ parts) =
    if text_eq version spf_version
    then render (take_mechanisms parts ([], default_all))
    else spf_version ++ 32 ∷ (routing_include ++ 32 ∷ default_all)

unfoldable pub merge_spf : Text → Text
unfolding merge_parts
merge_spf current = merge_parts (words (clean_str current))
