-- ===== src/Json/Links.antt =====
-- src/json.cpp: the node table of a document is well linked, so walks along it stay inside and end.
pub mod Same
pub mod Built
pub mod Walks
use native.Mathlib.Omega.{arith}
use framewire.Prelude.{
  ℕ, zero, suc, ◌+◌, ◌-◌, ◌≤◌, ◌<◌, ◌≡◌, ◌≢◌, refl, sym, ap, subst, ◌∙◌, inl, inr, Bool-cases,
  Option-cases, Bool, true, false, not, ◌&&◌, ◌||◌, List, [], ◌∷◌, ◌++◌, Option, none, some, ltb,
  ◌==◌, if◌then◌else◌, length, length-append, take, drop, get_or,
}
use framewire.Prelude.Chars.{Bytes, codes}
use framewire.Prelude.Result.{Result, ok, err, ◌>>=◌}
use framewire.Json.{
  Numbers, JsonType, JsonNode, Reader, Failure, Message, fail, advance, at_byte, skip_whitespace,
  parse_literal, new_node,
}
use framewire.Json.Text.{is_digit, parse_string}
use framewire.Json.Parse.{change, link, Parser}

-- A link from the node `i` of a table of `n`: nothing, or a node further on.
abbrev pub Forward : ℕ → ℕ → Option ℕ → Type 0
Forward i n none = Unit
Forward i n (some j) = (i < j) × (j < n)

Forward-mono : (i n m : ℕ) (o : Option ℕ) → n ≤ m → Forward i n o → Forward i m o
Forward-mono i n m none h f = tt
Forward-mono i n m (some j) h (a, b) = (a, omega arith)

-- The child before, if there is one, stands before a child.
abbrev pub Before : Option ℕ → ℕ → Type 0
Before none child = Unit
Before (some last) child = last < child

module _ {N : Type 0} where
  -- The nodes from `i` on are linked forward inside a table of `n`.
  abbrev pub LinkedFrom : ℕ → ℕ → List (JsonNode N) → Type 0
  LinkedFrom i n [] = Unit
  LinkedFrom i n (x ∷ xs) =
      Forward i n x.first_child × Forward i n x.next_sibling × LinkedFrom (suc i) n xs

  abbrev pub Linked : List (JsonNode N) → Type 0
  Linked xs = LinkedFrom 0 (length xs) xs

  pub LinkedFrom-mono :
      (i n m : ℕ) (xs : List (JsonNode N)) → n ≤ m → LinkedFrom i n xs → LinkedFrom i m xs
  LinkedFrom-mono i n m [] h l = tt
  LinkedFrom-mono i n m (x ∷ xs) h (f, s, l) =
      (Forward-mono i n m _ h f, Forward-mono i n m _ h s, LinkedFrom-mono (suc i) n m xs h l)

  pub LinkedFrom-append :
      (i n : ℕ) (xs ys : List (JsonNode N))
      → LinkedFrom i n xs
      → LinkedFrom (i + length xs) n ys
      → LinkedFrom i n (xs ++ ys)
  LinkedFrom-append i n [] ys lx ly = let e : i + 0 ≡ i = omega arith in rw e at ly
  LinkedFrom-append i n (x ∷ xs) ys (f, s, l) ly =
      let e : i + suc (length xs) ≡ suc i + length xs = omega arith in
      (f, s, LinkedFrom-append (suc i) n xs ys l (rw e at ly))

  pub length-change :
      (xs : List (JsonNode N)) (k : ℕ) (g : JsonNode N → JsonNode N)
      → length (change xs k g) ≡ length xs
  unfolding change
  length-change [] k g = refl
  length-change (x ∷ xs) zero g = refl
  length-change (x ∷ xs) (suc k) g = ap suc (length-change xs k g)

  -- A change of the node `k` that sets links forward.
  LinkedFrom-change :
      (i n k : ℕ) (xs : List (JsonNode N)) (g : JsonNode N → JsonNode N)
      → ((x : JsonNode N) → Forward (i + k) n x.first_child → Forward (i + k) n (g x).first_child)
      → ((x : JsonNode N) → Forward (i + k) n x.next_sibling → Forward (i + k) n (g x).next_sibling)
      → LinkedFrom i n xs
      → LinkedFrom i n (change xs k g)
  unfolding change
  LinkedFrom-change i n k [] g hf hs l = tt
  LinkedFrom-change i n zero (x ∷ xs) g hf hs (f, s, l) =
      let e : i + 0 ≡ i = omega arith in
      let hf' : Forward i n x.first_child → Forward i n (g x).first_child = rw e at (hf x) in
      let hs' : Forward i n x.next_sibling → Forward i n (g x).next_sibling = rw e at (hs x) in
      (hf' f, hs' s, l)
  LinkedFrom-change i n (suc k) (x ∷ xs) g hf hs (f, s, l) =
      let e : i + suc k ≡ suc i + k = omega arith in
      (f, s, LinkedFrom-change (suc i) n k xs g (λ y. rw (sym e) (hf y)) (λ y. rw (sym e) (hs y)) l)

  pub Linked-change :
      (k : ℕ) (xs : List (JsonNode N)) (g : JsonNode N → JsonNode N)
      → ((x : JsonNode N)
          → Forward k (length xs) x.first_child
          → Forward k (length xs) (g x).first_child)
      → ((x : JsonNode N)
          → Forward k (length xs) x.next_sibling
          → Forward k (length xs) (g x).next_sibling)
      → Linked xs
      → Linked (change xs k g)
  Linked-change k xs g hf hs l =
      let e : 0 + k ≡ k = omega arith in
      rw (length-change xs k g) (LinkedFrom-change 0 (length xs) k xs g (rw e hf) (rw e hs) l)

  pub length-link :
      (index : ℕ) (last : Option ℕ) (child : ℕ) (xs : List (JsonNode N))
      → length (link index last child xs) ≡ length xs
  unfolding link
  length-link index none child xs = length-change xs index _
  length-link index (some last) child xs =
      length-change (change xs last _) index _ ∙ length-change xs last _

  pub link-Linked :
      (index : ℕ) (last : Option ℕ) (child : ℕ) (xs : List (JsonNode N))
      → index < child
      → Before last child
      → child < length xs
      → Linked xs
      → Linked (link index last child xs)
  unfolding link
  link-Linked index none child xs hi hl hc l =
      Linked-change index xs _ (λ x _. (hi, hc)) (λ x h. h) l
  link-Linked index (some last) child xs hi hl hc l =
      Linked-change index (change xs last _) _ (λ x h. h) (λ x h. h)
        (Linked-change last xs _ (λ x h. h) (λ x _. (hl, hc)) l)
