-- ===== src/Audit/Append.antt =====
-- On reading and verifying a log after `append`.
use mathlib.Core.List.{append_assoc, append-nil}
use mathlib.Core.Option
use mathlib.Core.Option.{get_or}
use lockrail.Prelude.{
  ◌⊎◌, Bool-cases, get_last?, ℕ, ◌+◌, ◌≡◌, ◌≢◌, refl, ap, sym, ◌∙◌, Bool, true, false, not, none,
  some, List, [], ◌∷◌, ◌++◌, map, arith, length, length-append, keep, ok, ◌>>=◌, Result-cases,
  Option-cases, inl, inr,
}
use lockrail.Prelude.Text.{Text, split}
use lockrail.Prelude.Text.Split.{Lacks, split-Lacks, split-append_both, split_ne_nil}
use lockrail.Prelude.Text.Trim.{is_blank}
use lockrail.Protocol.Json.{Json}
use lockrail.Audit.{
  AuditEvent, AuditCodec, Disk, newline, strip_cr, pieces, lines, parse, read_all, event_hash,
  last_hash, draft, next_event, write_line, add_event, append, verify, verify_rows, events,
  genesis_hash,
}
use lockrail.Audit.Chain.{Chained, hash_from, Chained-append, verify_rows_iff}

-- The text of this event is read back as the event, and is one line that is not blank.
pub record CodecLaws (codec : AuditCodec) (e : AuditEvent) : Type 0 where
  pub from-to : (line : Text) → codec.to_string e ≡ some line → codec.from_str line ≡ some e
  pub one_line : (line : Text) → codec.to_string e ≡ some line → Lacks newline line
  pub no_cr : (line : Text) → codec.to_string e ≡ some line → strip_cr line ≡ line
  pub no_blank : (line : Text) → codec.to_string e ≡ some line → is_blank line ≡ false

-- The lines before a line feed are all ended.
pieces-append : (ps qs : List Text) → qs ≢ [] → pieces (ps ++ qs) ≡ map strip_cr ps ++ pieces qs
unfolding pieces
pieces-append [] qs ne = refl
pieces-append (p ∷ []) [] ne = absurd (ne refl)
pieces-append (p ∷ []) (q ∷ qs) ne = refl
pieces-append (p ∷ r ∷ ps) qs ne = ap (◌∷◌ (strip_cr p)) (pieces-append (r ∷ ps) qs ne)

lines-append : (t s : Text) → lines (t ++ (newline ∷ s)) ≡ map strip_cr (split t newline) ++ lines s
unfolding lines
lines-append t s =
    ap pieces (split-append_both t s newline)
    ∙ pieces-append (split t newline) (split s newline) (split_ne_nil s newline)

line_alone :
    (line : Text)
    → Lacks newline line
    → strip_cr line ≡ line
    → lines (line ++ (newline ∷ [])) ≡ line ∷ []
unfolding lines split
line_alone line l s = lines-append line [] ∙ rw (split-Lacks line newline l, s)

-- The file is empty, or ends with a line feed.
abbrev pub Terminated : Text → Type 0
Terminated text = (text ≡ []) ⊎ ((t : Text) × (text ≡ t ++ (newline ∷ [])))

lines_added :
    (text line : Text)
    → Terminated text
    → Lacks newline line
    → strip_cr line ≡ line
    → lines (text ++ (line ++ (newline ∷ []))) ≡ lines text ++ (line ∷ [])
unfolding lines split
lines_added text line (inl e) l s = rw e (line_alone line l s)
lines_added text line (inr (t, e)) l s = rw e (
    ap lines (append_assoc t (newline ∷ []) (line ++ (newline ∷ [])))
    ∙ lines-append t (line ++ (newline ∷ []))
    ∙ ap (λ r. map strip_cr (split t newline) ++ r) (line_alone line l s)
    ∙ ap (λ r. r ++ (line ∷ []))
        (sym (lines-append t [] ∙ append-nil (map strip_cr (split t newline)))))

keep-append {ℓ} :
    {A : Type ℓ} (p : A → Bool) (xs ys : List A) → keep p (xs ++ ys) ≡ keep p xs ++ keep p ys
keep-append p [] ys = refl
keep-append p (x ∷ xs) ys = elim (Bool-cases (p x)) [
  | inl e ↦ rw e (ap (◌∷◌ x) (keep-append p xs ys))
  | inr e ↦ rw e (keep-append p xs ys)
]

module _ (codec : AuditCodec) where
  parse-append :
      (ls ms : List Text) {es fs : List AuditEvent}
      → parse codec ls ≡ ok es
      → parse codec ms ≡ ok fs
      → parse codec (ls ++ ms) ≡ ok (es ++ fs)
  unfolding parse
  parse-append [] ms {es} {fs} p q = ground arith
  parse-append (l ∷ ls) ms {es} {fs} p q = elim (Option-cases (codec.from_str l)) [
    | inl n ↦ absurd (ground arith)
    | inr (e, f) ↦ elim (Result-cases (parse codec ls)) [
      | inr (x, n) ↦ absurd (ground arith)
      | inl (rest, r) ↦ ground (arith, parse-append ls ms {es = rest} {fs = fs} r q)
    ]
  ]

  -- The new event carries the next number, the last hash, and its own hash.
  next_event-fields :
      (now : ℕ) (action resource : Text) (metadata : Json) (rows : List AuditEvent) (e : AuditEvent)
      → next_event codec now action resource metadata rows ≡ ok e
      → (e.sequence ≡ length rows + 1)
        × (e.previous_hash ≡ last_hash codec rows)
        × (event_hash codec e ≡ ok e.event_hash)
  unfolding next_event
  next_event-fields now action resource metadata rows e h =
      elim (Result-cases (event_hash codec (draft codec now action resource metadata rows))) [
        | inr (x, n) ↦ absurd (ground arith)
        | inl (hash, k) ↦
            let event = record (draft codec now action resource metadata rows) {
              event_hash = hash;
            } in
            let same : event ≡ e = ground arith in rw (← same) (refl, refl, unfold event_hash in k)
      ]

last_default :
    (e : AuditEvent) (es : List AuditEvent) (p q : Text)
    → get_or (Option.map (λ (x : AuditEvent). x.event_hash) (get_last? (e ∷ es))) p
      ≡ get_or (Option.map (λ (x : AuditEvent). x.event_hash) (get_last? (e ∷ es))) q
last_default e [] p q = refl
last_default e (f ∷ es) p q = last_default f es p q

-- The hash that the last row leaves is the one that the next event takes.
last_hash_from :
    (prev : Text) (rows : List AuditEvent)
    → get_or (Option.map (λ (e : AuditEvent). e.event_hash) (get_last? rows)) prev
      ≡ hash_from prev rows
last_hash_from prev [] = refl
last_hash_from prev (e ∷ []) = refl
last_hash_from prev (e ∷ f ∷ es) =
    last_default f es prev e.event_hash ∙ last_hash_from e.event_hash (f ∷ es)

-- A sound log stays sound when the next event is added behind it.
next_event-Chained :
    (codec : AuditCodec) (now : ℕ) (action resource : Text) (metadata : Json)
    (rows : List AuditEvent) (e : AuditEvent)
    → Chained codec 1 genesis_hash rows
    → next_event codec now action resource metadata rows ≡ ok e
    → Chained codec 1 genesis_hash (rows ++ (e ∷ []))
next_event-Chained codec now action resource metadata rows e h k =
    let (s, p, own) = next_event-fields codec now action resource metadata rows e k in
    Chained-append codec 1 genesis_hash rows (e ∷ []) h
      (s ∙ omega arith, p ∙ last_hash_from genesis_hash rows, own, tt)

-- Every call goes well.
abbrev pub smooth : Disk
smooth = record { prepared = true; readable = true; writable = true; left = none }

module _ (codec : AuditCodec) where
  read_added :
      (text line : Text) (rows : List AuditEvent) (e : AuditEvent)
      → CodecLaws codec e
      → Terminated text
      → codec.to_string e ≡ some line
      → read_all codec (some text) ≡ ok rows
      → read_all codec (some (text ++ (line ++ (newline ∷ [])))) ≡ ok (rows ++ (e ∷ []))
  unfolding read_all parse
  read_added text line rows e laws t l r =
      let shown : List Text → List Text = keep (λ x. not (is_blank x)) in
      let one : parse codec (shown (line ∷ [])) ≡ ok (e ∷ []) =
        rw (laws.no_blank line l, laws.from-to line l) refl in
      ap (λ ls. parse codec (shown ls))
        (lines_added text line t (laws.one_line line l) (laws.no_cr line l))
      ∙ ap (parse codec) (keep-append (λ x. not (is_blank x)) (lines text) (line ∷ []))
      ∙ parse-append codec (shown (lines text)) (shown (line ∷ [])) r one

  -- What a successful append has written.
  append_written :
      (now : ℕ) (action resource : Text) (metadata : Json) (text : Text) (rows : List AuditEvent)
      (e : AuditEvent)
      → read_all codec (some text) ≡ ok rows
      → (append codec smooth now action resource metadata (some text)).0 ≡ ok e
      → (next_event codec now action resource metadata rows ≡ ok e)
        × ((line : Text) × (codec.to_string e ≡ some line)
            × ((append codec smooth now action resource metadata (some text)).1
                ≡ some (text ++ (line ++ (newline ∷ [])))))
  unfolding append add_event write_line
  append_written now action resource metadata text rows e r a =
      elim (Result-cases (next_event codec now action resource metadata rows)) [
        | inr (x, n) ↦ absurd (ground arith)
        | inl (f, n) ↦ elim (Option-cases (codec.to_string f)) [
          | inl m ↦ absurd (ground arith)
          | inr (line, m) ↦
              let same : f ≡ e = ground arith in
              (n ∙ ap ok same, (line, ap codec.to_string (sym same) ∙ m, rw (r, n, m) refl))
        ]
      ]

  -- After a successful append, on a disk without failures, to a log that verifies and is empty or
  -- ends with a line feed, the log holds the old rows and then the event, and verifies; the
  -- event's JSON text is one line, not blank, and is read back as the event.
  pub append-verify :
      (now : ℕ) (action resource : Text) (metadata : Json) (text : Text) (rows : List AuditEvent)
      (e : AuditEvent)
      → CodecLaws codec e
      → Terminated text
      → read_all codec (some text) ≡ ok rows
      → verify codec (some text) ≡ ok (true, events (length rows))
      → (append codec smooth now action resource metadata (some text)).0 ≡ ok e
      → (read_all codec (append codec smooth now action resource metadata (some text)).1
          ≡ ok (rows ++ (e ∷ [])))
        × (verify codec (append codec smooth now action resource metadata (some text)).1
            ≡ ok (true, events (length rows + 1)))
  unfolding verify
  append-verify now action resource metadata text rows e laws t r v a =
      let (n, (line, l, w)) = append_written now action resource metadata text rows e r a in
      let log : List AuditEvent = rows ++ (e ∷ []) in
      let added = ap (read_all codec) w ∙ read_added text line rows e laws t l r in
      let sound =
        (verify_rows_iff codec rows).0
          (sym (ap (λ x. x >>= λ y. verify_rows codec (length y) 1 genesis_hash y) r) ∙ v) in
      let now_sound =
        (verify_rows_iff codec log).1
          (next_event-Chained codec now action resource metadata rows e sound n) in
      (
        added,
        ap (λ x. x >>= λ y. verify_rows codec (length y) 1 genesis_hash y) added
            ∙ now_sound
            ∙ ap (λ k. ok (true, events k)) (length-append rows (e ∷ [])),
      )
