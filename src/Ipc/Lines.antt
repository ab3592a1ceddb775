-- ===== src/Ipc/Lines.antt =====
-- src/ipc_client.cpp: the lines of a text, and the first line end in it.
use native.Mathlib.Omega.{arith}
use framewire.Prelude.{
  ℕ, suc, ◌≤◌, ◌≡◌, refl, sym, ap, ◌∙◌, inl, inr, Bool-cases, Option-cases, false, List, [], ◌∷◌,
  ◌++◌, Option, none, some, ◌==◌, if◌then◌else◌, length, take, drop, append_assoc, append-nil,
}
use framewire.Prelude.Chars.{Bytes}
use framewire.Ipc.{MpvIpcClient, PollResult, line, Wake, received, find_byte}

-- The complete lines of a text, where `start` is what stands before it on its first line.
unfoldable pub lines_from : Bytes → Bytes → List Bytes
lines_from start [] = []
lines_from start (b ∷ bs) =
    let first = start ∷ lines_from [] bs in
    let later = lines_from (start ++ b ∷ []) bs in if b == b'\n' then first else later

abbrev pub lines : Bytes → List Bytes
lines text = lines_from [] text

abbrev pub bytes_received : List Wake → Bytes
bytes_received [] = []
bytes_received (received chunk late ∷ ws) = chunk ++ bytes_received ws
bytes_received (_ ∷ ws) = bytes_received ws

abbrev pub delivered : Option PollResult → List Bytes
delivered (some (line text)) = text ∷ []
delivered _ = []

-- No line ends in the part of the buffer that has been searched.
abbrev pub Scanned : MpvIpcClient → Type 0
Scanned c =
    (c.scan_from ≤ length c.read_buffer) × (find_byte b'\n' (take c.scan_from c.read_buffer) ≡ none)

pub find_byte-cons :
    (stop b : ℕ) (bs : Bytes)
    → find_byte stop (b ∷ bs) ≡ none
    → ((b == stop) ≡ false) × (find_byte stop bs ≡ none)
unfolding find_byte
find_byte-cons stop b bs h = elim (Bool-cases (b == stop)) [
  | inl e ↦ let h' : some 0 ≡ none = rw e at h in absurd (cc h')
  | inr e ↦ elim (Option-cases (find_byte stop bs)) [
    | inl none_later ↦ (e, none_later)
    | inr (i, later) ↦ let h' : some (suc i) ≡ none = rw (e, later) at h in absurd (cc h')
  ]
]

pub find_byte-append :
    (stop : ℕ) (xs ys : Bytes)
    → find_byte stop xs ≡ none
    → find_byte stop ys ≡ none
    → find_byte stop (xs ++ ys) ≡ none
unfolding find_byte
find_byte-append stop [] ys hx hy = hy
find_byte-append stop (x ∷ xs) ys hx hy =
    let (e, later) = find_byte-cons stop x xs hx in
    rw (e, find_byte-append stop xs ys later hy) refl

-- Where the first byte `stop` stands at `i`, nothing before it is `stop`.
pub find_byte-some :
    (stop : ℕ) (xs : Bytes) (i : ℕ)
    → find_byte stop xs ≡ some i
    → (xs ≡ take i xs ++ stop ∷ drop (suc i) xs) × (find_byte stop (take i xs) ≡ none)
unfolding find_byte
find_byte-some stop [] i h = absurd (cc h)
find_byte-some stop (x ∷ xs) i h = elim (Bool-cases (x == stop)) [
  | inl e ↦
      let h' : some 0 ≡ some i = rw e at h in
      let at : 0 ≡ i = cc h' in
      let same : x ≡ stop = ground arith in rw (← at) (ap (λ b. b ∷ xs) same, refl)
  | inr e ↦ elim (Option-cases (find_byte stop xs)) [
    | inl absent ↦ let h' : none ≡ some i = rw (e, absent) at h in absurd (cc h')
    | inr (j, present) ↦
        let h' : some (suc j) ≡ some i = rw (e, present) at h in
        let at : suc j ≡ i = cc h' in
        let (split, before) = find_byte-some stop xs j present in
        rw (← at) (ap (◌∷◌ x) split, rw (e, before) refl)
  ]
]

pub lines_from-append :
    (start xs ys : Bytes)
    → find_byte b'\n' xs ≡ none
    → lines_from start (xs ++ ys) ≡ lines_from (start ++ xs) ys
unfolding lines_from
lines_from-append start [] ys h = rw (append-nil start) refl
lines_from-append start (x ∷ xs) ys h =
    let (e, later) = find_byte-cons b'\n' x xs h in
    let assoc : (start ++ x ∷ []) ++ xs ≡ start ++ x ∷ xs = append_assoc start (x ∷ []) xs in
    rw e (lines_from-append (start ++ x ∷ []) xs ys later ∙ ap (λ s. lines_from s ys) assoc)

pub lines-none : (xs : Bytes) → find_byte b'\n' xs ≡ none → lines xs ≡ []
unfolding lines_from
lines-none xs h = ap lines (sym (append-nil xs)) ∙ lines_from-append [] xs [] h

pub lines-first :
    (xs ys : Bytes) → find_byte b'\n' xs ≡ none → lines (xs ++ b'\n' ∷ ys) ≡ xs ∷ lines ys
unfolding lines_from
lines-first xs ys h = lines_from-append [] xs (b'\n' ∷ ys) h
