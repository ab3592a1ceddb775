-- ===== src/Json/Links/Walks.antt =====
-- src/json.cpp: the loop of `operator[]` over the members of an object ends by itself.
use native.Mathlib.Omega.{arith}
use framewire.Prelude.{
  ℕ, zero, suc, ◌+◌, ◌≤◌, ◌<◌, ◌≡◌, refl, ap, List, [], ◌∷◌, Option, none, some, if◌then◌else◌,
  length, get_or,
}
use framewire.Prelude.Chars.{Bytes}
use framewire.Prelude.Result.{ok}
use framewire.Report.{same_bytes}
use framewire.Json.{Numbers, JsonNode, default_node, json_null, Reader}
use framewire.Json.Values.{node, text, find_member}
use framewire.Json.Parse.{parse}
use framewire.Json.Links.{Forward, LinkedFrom, Linked}
use framewire.Json.Links.Built.{parse-Linked}

-- A property of the links that holds of nothing, and of every node of a linked table.
get_or-Forward :
    {N : Type 0} (i n j : ℕ) (xs : List (JsonNode N)) (d : JsonNode N)
    → d.first_child ≡ none
    → d.next_sibling ≡ none
    → LinkedFrom i n xs
    → Forward (i + j) n (get_or xs j d).first_child × Forward (i + j) n (get_or xs j d).next_sibling
get_or-Forward i n j [] d hf hs l = (rw hf tt, rw hs tt)
get_or-Forward i n zero (x ∷ xs) d hf hs (f, s, l) = let e : i + 0 ≡ i = omega arith in rw e (f, s)
get_or-Forward i n (suc j) (x ∷ xs) d hf hs (f, s, l) =
    let e : i + suc j ≡ suc i + j = omega arith in rw e (get_or-Forward (suc i) n j xs d hf hs l)

module _ (F : Numbers) (doc : Reader F.Number) (linked : Linked doc.nodes) where
  node-Forward :
      (i : ℕ)
      → Forward i (length doc.nodes) (node F doc i).first_child
        × Forward i (length doc.nodes) (node F doc i).next_sibling
  unfolding node
  node-Forward i =
      let e : 0 + i ≡ i = omega arith in
      rw e at (
        get_or-Forward 0 (length doc.nodes) i doc.nodes (default_node F.number_zero json_null) refl
          refl linked)

  -- `fuel` rounds reach the end from here.
  abbrev pub Reach : ℕ → Option ℕ → Type 0
  Reach fuel none = Unit
  Reach fuel (some i) = (i < length doc.nodes) × (length doc.nodes ≤ i + fuel)

  Reach-next :
      (i fuel : ℕ) (o : Option ℕ)
      → Forward i (length doc.nodes) o
      → length doc.nodes ≤ i + suc fuel
      → Reach fuel o
  Reach-next i fuel none f h = tt
  Reach-next i fuel (some j) (lt, inside) h = (inside, omega arith)

  find_member-more :
      (fuel k : ℕ) (c : Option ℕ) (key : Bytes)
      → Reach fuel c
      → find_member F doc (fuel + k) c key ≡ find_member F doc fuel c key
  unfolding find_member
  find_member-more fuel k none key h = refl
  find_member-more zero k (some c) key (inside, h) = absurd (omega arith)
  find_member-more (suc fuel) k (some c) key (inside, h) =
      let e : suc fuel + k ≡ suc (fuel + k) = omega arith in
      let rest =
        find_member-more fuel k (node F doc c).next_sibling key
          (Reach-next c fuel _ (node-Forward c).1 h) in
      rw e (
        ap
          (λ later.
            if same_bytes (text F doc (node F doc c).key_off (node F doc c).key_len) key
            then some c
            else later)
          rest)

-- In a document that `Parse` accepts, the search for a member among the children of a node needs no more rounds than the
-- document has nodes: any more give the same answer.
pub find_member-ends :
    (F : Numbers) (source : Bytes) (doc : Reader F.Number) (i k : ℕ) (key : Bytes)
    → parse F source ≡ ok doc
    → find_member F doc (length doc.nodes + k) (node F doc i).first_child key
      ≡ find_member F doc (length doc.nodes) (node F doc i).first_child key
find_member-ends F source doc i k key e =
    let (some_node, linked) = parse-Linked F source doc e in
    let c = (node F doc i).first_child in
    find_member-more F doc linked (length doc.nodes) k c key
      (Reach-next F doc linked i (length doc.nodes) c (node-Forward F doc linked i).0 (omega arith))
