-- ===== src/Audit/Chain.antt =====
-- What a log is that verifies.
use mathlib.Core.Path.{subst}
use lockrail.Prelude.{
  ℕ, zero, suc, ◌+◌, ◌≡◌, ◌↔◌, refl, ap, sym, ◌∙◌, true, List, [], ◌∷◌, ◌++◌, arith, length, ok,
  Result-cases, inl, inr, take,
}
use lockrail.Prelude.Text.{Text, text_eq_iff}
use lockrail.Audit.{AuditEvent, AuditCodec, Message, events, genesis_hash, event_hash, verify_rows}

-- Rows numbered from `seq`, each with the hash of the row before and with its own.
abbrev pub Chained : AuditCodec → ℕ → Text → List AuditEvent → Type 0
Chained codec seq prev [] = Unit
Chained codec seq prev (e ∷ es) =
    (e.sequence ≡ seq)
    × (e.previous_hash ≡ prev)
    × (event_hash codec e ≡ ok e.event_hash)
    × Chained codec (seq + 1) e.event_hash es

verify→Chained :
    (codec : AuditCodec) (total seq : ℕ) (prev : Text) (rows : List AuditEvent) {m : Message}
    → verify_rows codec total seq prev rows ≡ ok (true, m)
    → Chained codec seq prev rows
unfolding verify_rows
verify→Chained codec total seq prev [] h = tt
verify→Chained codec total seq prev (e ∷ es) {m} h = elim (Result-cases (event_hash codec e)) [
  | inr (x, n) ↦ absurd (ground arith)
  | inl (expected, k) ↦
      let own : e.event_hash ≡ expected = (text_eq_iff e.event_hash expected).0 (ground arith) in
      (
        ground arith,
        (text_eq_iff e.previous_hash prev).0 (ground arith),
        k ∙ ap ok (sym own),
        verify→Chained codec total (seq + 1) e.event_hash es {m = m} (ground arith),
      )
]

Chained→verify :
    (codec : AuditCodec) (total seq : ℕ) (prev : Text) (rows : List AuditEvent)
    → Chained codec seq prev rows
    → verify_rows codec total seq prev rows ≡ ok (true, events total)
unfolding verify_rows
Chained→verify codec total seq prev [] h = refl
Chained→verify codec total seq prev (e ∷ es) (s, p, k, h) =
    let ih = Chained→verify codec total (seq + 1) e.event_hash es h in
    let a = (text_eq_iff e.previous_hash prev).1 p in
    let b = (text_eq_iff e.event_hash e.event_hash).1 refl in ground arith

-- The rows of a log verify exactly if they are numbered from one and each has its own hash and
-- that of the row before, from the genesis hash on.
pub verify_rows_iff :
    (codec : AuditCodec) (rows : List AuditEvent)
    → (verify_rows codec (length rows) 1 genesis_hash rows ≡ ok (true, events (length rows)))
      ↔ Chained codec 1 genesis_hash rows
verify_rows_iff codec rows = (
  verify→Chained codec (length rows) 1 genesis_hash rows,
  Chained→verify codec (length rows) 1 genesis_hash rows,
)

-- A chain goes on where its last row says.
abbrev pub hash_from : Text → List AuditEvent → Text
hash_from prev [] = prev
hash_from prev (e ∷ es) = hash_from e.event_hash es

pub Chained-append :
    (codec : AuditCodec) (seq : ℕ) (prev : Text) (es fs : List AuditEvent)
    → Chained codec seq prev es
    → Chained codec (seq + length es) (hash_from prev es) fs
    → Chained codec seq prev (es ++ fs)
Chained-append codec seq prev [] fs h k = subst (λ n. Chained codec n prev fs) (omega arith) k
Chained-append codec seq prev (e ∷ es) fs (a, b, c, h) k = (
  a,
  b,
  c,
  Chained-append codec (seq + 1) e.event_hash es fs h
      (subst (λ n. Chained codec n (hash_from e.event_hash es) fs) (omega arith) k),
)

-- Every prefix of a chain is a chain.
pub Chained-take :
    (codec : AuditCodec) (seq : ℕ) (prev : Text) (n : ℕ) (rows : List AuditEvent)
    → Chained codec seq prev rows
    → Chained codec seq prev (take n rows)
Chained-take codec seq prev zero rows h = tt
Chained-take codec seq prev (suc n) [] h = tt
Chained-take codec seq prev (suc n) (e ∷ es) (a, b, c, h) =
    (a, b, c, Chained-take codec (seq + 1) e.event_hash n es h)
