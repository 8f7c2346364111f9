-- ===== src/Relay/Replay/Once.antt =====
-- On keys that the replay store has accepted.
use lockrail.Prelude.{
  ℕ, ◌≤◌, ◌<◌, ◌≡◌, ◌↔◌, ap, ◌∙◌, some, List, [], ◌∷◌, arith, All, ok, err, Option-cases, inl, inr,
}
use lockrail.Prelude.Text.{Text, text_eq_iff}
use lockrail.Prelude.Map.{
  get, retain, Distinct, get-insert, get-retain_keeps, get-retain, insert-Distinct, retain-Distinct,
}
use lockrail.Vault.Error.{replay_detected}
use lockrail.Relay.Replay.{Store, Use, live, check_key, run}

-- A key that is held and not yet expired is refused, and stays held.
check_held :
    (s : Store) (u : Use) {e : ℕ}
    → get s u.key ≡ some e
    → u.now ≤ e
    → (check_key s u).0 ≡ err replay_detected
unfolding check_key
check_held s u {e} h l = ground (arith, get-retain_keeps (live u.now) s u.key h (ground arith))

check_keeps :
    (s : Store) (u : Use) (k : Text) {e : ℕ}
    → get s k ≡ some e
    → u.now ≤ e
    → get (check_key s u).1 k ≡ some e
unfolding check_key
check_keeps s u k {e} h l = ground (
  arith,
  get-retain_keeps (live u.now) s k h (ground arith),
  get-insert (retain (live u.now) s) u.key k u.expires_at,
  text_eq_iff u.key k,
)

run_keeps :
    (s : Store) (us : List Use) (k : Text) {e : ℕ}
    → get s k ≡ some e
    → All (λ u. u.now ≤ e) us
    → get (run s us) k ≡ some e
unfolding run
run_keeps s [] k h a = h
run_keeps s (u ∷ us) k h (l, a) = run_keeps (check_key s u).1 us k (check_keeps s u k h l) a

accepted_held :
    (s : Store) (u : Use)
    → (check_key s u).0 ≡ ok tt
    → get (check_key s u).1 u.key ≡ some u.expires_at
unfolding check_key
accepted_held s u h =
    ground
      (arith, get-insert (retain (live u.now) s) u.key u.key u.expires_at, text_eq_iff u.key u.key)

-- After a call was accepted, and whatever calls came since, the same key is refused again as long
-- as no clock reading has passed the expiry that was stored with it.
pub replay_refused :
    (s : Store) (first again : Use) (between : List Use)
    → (check_key s first).0 ≡ ok tt
    → All (λ u. u.now ≤ first.expires_at) between
    → again.key ≡ first.key
    → again.now ≤ first.expires_at
    → (check_key (run (check_key s first).1 between) again).0 ≡ err replay_detected
replay_refused s first again between h calls same l =
    check_held _ again
      (run_keeps (check_key s first).1 between again.key
        (ap (λ k. get (check_key s first).1 k) same ∙ accepted_held s first h) calls)
      l

-- Where each key is held once, a call is accepted exactly if its key is not held, or has expired.
pub check_key-ok_iff :
    (s : Store) (u : Use)
    → Distinct s
    → ((check_key s u).0 ≡ ok tt) ↔ ((e : ℕ) → get s u.key ≡ some e → e < u.now)
unfolding check_key
check_key-ok_iff s u d = (
  λ h e held. ground (arith, get-retain (live u.now) s u.key d),
  λ h. elim (Option-cases (get s u.key)) [
    | inl n ↦ ground (arith, get-retain (live u.now) s u.key d)
    | inr (e, held) ↦ ground (arith, get-retain (live u.now) s u.key d, h e held)
  ],
)

-- Every key stands once in the store, after every call.
pub check_key-Distinct : (s : Store) (u : Use) → Distinct s → Distinct (check_key s u).1
unfolding check_key
check_key-Distinct s u d =
    let kept = retain-Distinct (live u.now) s d in
    elim (Option-cases (get (retain (live u.now) s) u.key)) [
      | inl n ↦ rw n (insert-Distinct (retain (live u.now) s) u.key u.expires_at kept)
      | inr (e, h) ↦ rw h kept
    ]
