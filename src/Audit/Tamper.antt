-- ===== src/Audit/Tamper.antt =====
-- What changes to a log `verify` can tell, and what it cannot.
use mathlib.Core.Path.{ap₂}
use lockrail.Prelude.{
  Member, inl, inr, ℕ, ◌+◌, ◌≡◌, refl, ap, sym, ◌∙◌, true, List, [], ◌∷◌, arith, length, take, ok,
}
use lockrail.Prelude.Text.{Text}
use lockrail.Audit.{
  AuditEvent, AuditCodec, Covered, covered, genesis_hash, event_hash, verify_rows, events,
}
use lockrail.Audit.Chain.{Chained, hash_from, Chained-take, verify_rows_iff}

-- Between two logs, events with one hash agree on all that it covers.
abbrev pub CollisionFree : AuditCodec → List AuditEvent → List AuditEvent → Type 0
CollisionFree codec rows rows' =
    (e f : AuditEvent) (h : Text)
    → Member e rows
    → Member f rows'
    → event_hash codec e ≡ ok h
    → event_hash codec f ≡ ok h
    → covered e ≡ covered f

event_eq : (e f : AuditEvent) → covered e ≡ covered f → e.event_hash ≡ f.event_hash → e ≡ f
event_eq e f c h = λ i. record {
  sequence = (c i).sequence;
  timestamp = (c i).timestamp;
  actor = (c i).actor;
  action = (c i).action;
  resource = (c i).resource;
  metadata = (c i).metadata;
  previous_hash = (c i).previous_hash;
  event_hash = h i;
}

-- From the last hash back, two chains are the same.
chains_agree :
    (codec : AuditCodec) (seq : ℕ) (p q : Text) (es fs : List AuditEvent)
    → CollisionFree codec es fs
    → Chained codec seq p es
    → Chained codec seq q fs
    → length es ≡ length fs
    → hash_from p es ≡ hash_from q fs
    → (p ≡ q) × (es ≡ fs)
chains_agree codec seq p q [] [] free c d l h = (h, refl)
chains_agree codec seq p q [] (f ∷ fs) free c d l h = absurd (omega arith)
chains_agree codec seq p q (e ∷ es) [] free c d l h = absurd (omega arith)
chains_agree codec seq p q (e ∷ es) (f ∷ fs) free (es1, ep, eh, c) (fs1, fp, fh, d) l h =
    let (k, rest) =
      chains_agree codec (seq + 1) e.event_hash f.event_hash es fs
        (λ x y k m n. free x y k (inr m) (inr n)) c d (omega arith) h in
    let same = free e f f.event_hash (inl refl) (inl refl) (eh ∙ ap ok k) fh in
    (
      sym ep ∙ ap (λ (x : Covered). x.previous_hash) same ∙ fp,
      ap₂ (λ (x : AuditEvent) (xs : List AuditEvent). x ∷ xs) (event_eq e f same k) rest,
    )

-- Two logs that verify, of one length and with one last hash, are the same, row by row, if no
-- event of one has the hash of a different event of the other.
pub tamper_evident :
    (codec : AuditCodec) (rows rows' : List AuditEvent)
    → CollisionFree codec rows rows'
    → verify_rows codec (length rows) 1 genesis_hash rows ≡ ok (true, events (length rows))
    → verify_rows codec (length rows') 1 genesis_hash rows' ≡ ok (true, events (length rows'))
    → length rows ≡ length rows'
    → hash_from genesis_hash rows ≡ hash_from genesis_hash rows'
    → rows ≡ rows'
tamper_evident codec rows rows' free v w l h =
    (chains_agree codec 1 genesis_hash genesis_hash rows rows' free
      ((verify_rows_iff codec rows).0 v) ((verify_rows_iff codec rows').0 w) l h).1

-- A log that verifies still does when rows at its end are taken away.
pub truncation_verifies :
    (codec : AuditCodec) (n : ℕ) (rows : List AuditEvent)
    → verify_rows codec (length rows) 1 genesis_hash rows ≡ ok (true, events (length rows))
    → verify_rows codec (length (take n rows)) 1 genesis_hash (take n rows)
      ≡ ok (true, events (length (take n rows)))
truncation_verifies codec n rows v =
    (verify_rows_iff codec (take n rows)).1
      (Chained-take codec 1 genesis_hash n rows ((verify_rows_iff codec rows).0 v))
