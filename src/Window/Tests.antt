-- ===== src/Window/Tests.antt =====
-- The windows of src/histogram.cpp at concrete samples, and the theorems applied to them.
use framewire.Prelude.{ℕ, ◌≡◌, refl, List, [], ◌∷◌, ltb}
use framewire.Prelude.Int.{pos, negsuc, pos_part}
use framewire.Double.{Double}
use framewire.Window.{
  SampleWindow, SignedWindow, new_samples, record_sample, copy_loop, copy_recent, new_signed,
  record_signed,
}
use framewire.Window.Readback.{recorded}
use framewire.Window.Held.{Keeps, new_window-Keeps, slide-Keeps}

abbrev whole : Double
whole = record {
  Carrier = ℕ;
  of_nat = λ n. n;
  of_int = λ n. pos_part n;
  plus = λ a b. a;
  minus = λ a b. a;
  times = λ a b. b;
  over = λ a b. a;
  sqrt = λ a. a;
  less = ltb;
  ceil = λ a. a;
  floor = λ a. a;
  to_nat = λ a. a;
}

-- Two places, three samples.
abbrev history : List ℕ
history = 30 ∷ 10 ∷ 20 ∷ []

abbrev three : SampleWindow
three = recorded 2 history

three-Keeps : Keeps 0 three history
unfolding record_sample new_samples
three-Keeps = slide-Keeps 0 (recorded 2 (10 ∷ 20 ∷ [])) (10 ∷ 20 ∷ []) 30 (
    slide-Keeps 0 (recorded 2 (20 ∷ [])) (20 ∷ []) 10
      (slide-Keeps 0 (recorded 2 []) [] 20 (new_window-Keeps 0 2)))

abbrev signed : SignedWindow
signed = record_signed (new_signed 2) (negsuc 4)

signed-Keeps : Keeps (pos 0) signed (negsuc 4 ∷ [])
unfolding record_signed new_signed
signed-Keeps = slide-Keeps (pos 0) (new_signed 2) [] (negsuc 4) (new_window-Keeps (pos 0) 2)

three_samples : copy_recent three 4 ≡ 0 ∷ 0 ∷ 10 ∷ 30 ∷ []
unfolding copy_recent copy_loop record_sample new_samples
three_samples = refl

slide-Keeps_example : Keeps 0 (record_sample three 40) (40 ∷ history)
unfolding record_sample
slide-Keeps_example = slide-Keeps 0 three history 40 three-Keeps
