-- ===== src/Ipc/Sending.antt =====
-- src/ipc_client.cpp: what `SendRaw` has written when it returns.
use framewire.Prelude.{
  ◌≡◌, ◌↔◌, refl, sym, ap, ◌∙◌, Bool, true, List, [], ◌∷◌, ◌++◌, Option, some, take, drop,
  take-append-drop, append_assoc,
}
use framewire.Prelude.Chars.{Bytes}
use framewire.Ipc.{
  MpvIpcClient, Sent, accepted, writable_again, not_writable, send_failed, send_rounds, send_raw,
}

-- Done with the whole text, or short of it by some bytes.
abbrev Ends : Bytes → Option Bool × Bytes → Type 0
Ends text (result, written) =
    (rest : Bytes) × (text ≡ written ++ rest)
    × (result ≡ some true → rest ≡ [])
    × (rest ≡ [] → result ≡ some true)

send_rounds-Ends : (text : Bytes) (answers : List Sent) → Ends text (send_rounds text answers)
unfolding send_rounds
send_rounds-Ends [] answers = ([], refl, λ _. refl, λ _. refl)
send_rounds-Ends (b ∷ bs) [] = (b ∷ bs, refl, λ e. absurd (cc e), λ e. absurd (cc e))
send_rounds-Ends (b ∷ bs) (accepted n ∷ answers) =
    let (rest, split, whole, done) = send_rounds-Ends (drop n (b ∷ bs)) answers in
    (
      rest,
      sym (take-append-drop n (b ∷ bs))
          ∙ ap (◌++◌ (take n (b ∷ bs))) split
          ∙ sym (append_assoc (take n (b ∷ bs)) (send_rounds (drop n (b ∷ bs)) answers).1 rest),
      whole,
      done,
    )
send_rounds-Ends (b ∷ bs) (writable_again ∷ answers) = send_rounds-Ends (b ∷ bs) answers
send_rounds-Ends (b ∷ bs) (not_writable ∷ answers) =
    (b ∷ bs, refl, λ e. absurd (cc e), λ e. absurd (cc e))
send_rounds-Ends (b ∷ bs) (send_failed ∷ answers) =
    (b ∷ bs, refl, λ e. absurd (cc e), λ e. absurd (cc e))

-- However `send` splits a line, the socket has taken a part of it from its start, and `SendRaw` returns true exactly when
-- nothing of the line is left. Where the client is connected.
pub send_raw-Ends :
    (c : MpvIpcClient) (text : Bytes) (answers : List Sent)
    → c.connected ≡ true
    → (rest : Bytes) × (text ≡ (send_raw c text answers).1 ++ rest)
      × (((send_raw c text answers).0 ≡ some true) ↔ (rest ≡ []))
unfolding send_raw
send_raw-Ends c text answers e =
    let (rest, split, whole, done) = send_rounds-Ends text answers in
    rw e (rest, split, (whole, done))
