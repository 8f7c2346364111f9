-- ===== src/Cli/Inject/Variables.antt =====
-- The variables of the child process, one by one.
use mathlib.Core.Path.{subst}
use mathlib.Core.Option.{get_or}
use lockrail.Prelude.{
  ◌≡◌, ◌≢◌, ◌⊎◌, ◌↔◌, inl, inr, refl, sym, ap, Bool, true, false, Option, none, some, [], ◌∷◌, ◌++◌,
  if◌then◌else◌, arith, Member, Bool-cases, Option-cases,
}
use lockrail.Prelude.Map.{
  Map, get, insert, retain, Distinct, get-insert, insert-Distinct, get-remove,
}
use lockrail.Prelude.Membership.{any-text_iff}
use lockrail.Prelude.Text.{Text, codes, text_eq, text_eq_iff}
use lockrail.Vault.Document.{SecretRecord, VaultData}
use lockrail.Vault.Order.{in_order, in_order_iff}
use lockrail.Cli.Inject.Named.{Names, sanitize_env_key-Names, Names-sanitize_env_key}
use lockrail.Cli.Inject.{
  sanitize_env_key, has_tag, collect, selected, build_env_map, envs, child_env,
}

-- A secret of the environment gives the variable `k` the value `v`.
pub record FromSecret (d : VaultData) (environment : Option Text) (k v : Text) : Type 0 where
  pub name : Text
  pub record' : SecretRecord
  pub held : Member (name, record') d.keys
  pub tagged : Member (codes "env:" ++ get_or environment (codes "default")) record'.metadata.tags
  pub named : Names name k
  pub value : record'.value ≡ v

abbrev or_else : Option Text → Option Text → Option Text
or_else (some v) o = some v
or_else none o = o

Member-retain :
    {V : Type 0} (p : V → Bool) (m : Map V) (k : Text) (v : V)
    → Member (k, v) (retain p m) ↔ (Member (k, v) m × (p v ≡ true))
unfolding retain
Member-retain {V} p [] k v = ground arith
Member-retain {V} p ((j, w) ∷ m) k v = elim (Bool-cases (p w)) [
  | inl e ↦ rw e (
    λ h. elim h [
      | inl s ↦ (inl s, subst (λ (x : Text × V). p x.1 ≡ true) s e)
      | inr l ↦ (let (at, t) = (Member-retain p m k v).0 l in (inr at, t))
    ],
    λ (h, t). elim h [ inl s ↦ inl s | inr l ↦ inr ((Member-retain p m k v).1 (l, t)) ],
  )
  | inr e ↦ rw e (
    λ h. (let (at, t) = (Member-retain p m k v).0 h in (inr at, t)),
    λ (h, t). elim h [
      | inl s ↦ absurd (cc (subst (λ (x : Text × V). p x.1 ≡ false) s e, t))
      | inr l ↦ (Member-retain p m k v).1 (l, t)
    ],
  )
]

-- What is collected is an entry, or was there before.
collect_sound :
    (rs : Map SecretRecord) (m : Map Text) (k v : Text)
    → get (collect rs m) k ≡ some v
    → (get m k ≡ some v)
      ⊎ ((name : Text) × (r : SecretRecord) × Member (name, r) rs
          × (sanitize_env_key name ≡ k)
          × (r.value ≡ v))
unfolding collect
collect_sound [] m k v h = inl h
collect_sound ((name, r) ∷ rs) m k v h =
    elim (collect_sound rs (insert m (sanitize_env_key name) r.value) k v h) [
      | inr (n, q, at, key, value) ↦ inr (n, q, inr at, key, value)
      | inl e ↦ elim (Bool-cases (text_eq (sanitize_env_key name) k)) [
        | inl t ↦ inr (
          name,
          r,
          inl refl,
          (text_eq_iff (sanitize_env_key name) k).0 t,
          ground (arith, get-insert m (sanitize_env_key name) k r.value),
        )
        | inr f ↦ inl (ground (arith, get-insert m (sanitize_env_key name) k r.value))
      ]
    ]

-- A variable that is there stays, if not its value.
collect_keeps :
    (rs : Map SecretRecord) (m : Map Text) (k v : Text)
    → get m k ≡ some v
    → (v' : Text) × (get (collect rs m) k ≡ some v')
unfolding collect
collect_keeps [] m k v h = (v, h)
collect_keeps ((name, r) ∷ rs) m k v h =
    let there = get-insert m (sanitize_env_key name) k r.value in
    elim (Bool-cases (text_eq (sanitize_env_key name) k)) [
      | inl t ↦ collect_keeps rs (insert m (sanitize_env_key name) r.value) k r.value (ground arith)
      | inr f ↦ collect_keeps rs (insert m (sanitize_env_key name) r.value) k v (ground arith)
    ]

collect_complete :
    (rs : Map SecretRecord) (m : Map Text) (name : Text) (r : SecretRecord)
    → Member (name, r) rs
    → (v : Text) × (get (collect rs m) (sanitize_env_key name) ≡ some v)
unfolding collect
collect_complete [] m name r h = absurd h
collect_complete ((n, q) ∷ rs) m name r h = elim h [
  | inr later ↦ collect_complete rs (insert m (sanitize_env_key n) q.value) name r later
  | inl e ↦
      collect_keeps rs (insert m (sanitize_env_key n) q.value) (sanitize_env_key name) q.value (
        rw
          (
            get-insert m (sanitize_env_key n) (sanitize_env_key name) q.value,
            (text_eq_iff (sanitize_env_key n) (sanitize_env_key name)).1
                (ap (λ (x : Text × SecretRecord). sanitize_env_key x.0) e),
          )
          refl)
]

selected_iff :
    (d : VaultData) (environment : Option Text) (name : Text) (r : SecretRecord)
    → Member (name, r) (selected d environment) ↔ (
        Member (name, r) d.keys
        × Member (codes "env:" ++ get_or environment (codes "default")) r.metadata.tags)
unfolding selected has_tag
selected_iff d environment name r =
    let tag = codes "env:" ++ get_or environment (codes "default") in
    ground (
      arith,
      Member-retain (has_tag tag) (in_order d.keys) name r,
      in_order_iff d.keys (name, r),
      any-text_iff tag r.metadata.tags,
    )

collect-Distinct : (rs : Map SecretRecord) (m : Map Text) → Distinct m → Distinct (collect rs m)
unfolding collect
collect-Distinct [] m d = d
collect-Distinct ((name, r) ∷ rs) m d =
    collect-Distinct rs _ (insert-Distinct m (sanitize_env_key name) r.value d)

build_env_map-Distinct :
    (d : VaultData) (environment : Option Text) → Distinct (build_env_map d environment)
unfolding build_env_map
build_env_map-Distinct d environment = collect-Distinct (selected d environment) [] tt

envs-Distinct : (parent m : Map Text) → Distinct parent → Distinct (envs parent m)
unfolding envs
envs-Distinct parent [] d = d
envs-Distinct parent ((k, v) ∷ m) d =
    envs-Distinct (insert parent k v) m (insert-Distinct parent k v d)

get-envs :
    (parent m : Map Text) (k : Text)
    → Distinct m
    → get (envs parent m) k ≡ or_else (get m k) (get parent k)
unfolding envs get
get-envs parent [] k d = refl
get-envs parent ((j, v) ∷ m) k (n, d) =
    ground (arith, get-envs (insert parent j v) m k d, get-insert parent j k v, text_eq_iff j k)

env_map_sound :
    (d : VaultData) (environment : Option Text) (k v : Text)
    → get (build_env_map d environment) k ≡ some v
    → FromSecret d environment k v
unfolding build_env_map get
env_map_sound d environment k v h = elim (collect_sound (selected d environment) [] k v h) [
  | inl e ↦ absurd (cc e)
  | inr (name, r, at, key, value) ↦
      let (held, tagged) = (selected_iff d environment name r).0 at in
      record {
        name = name;
        record' = r;
        held = held;
        tagged = tagged;
        named = subst (λ k. Names name k) key (sanitize_env_key-Names name);
        value = value;
      }
]

env_map_complete :
    (d : VaultData) (environment : Option Text) (k v : Text)
    → FromSecret d environment k v
    → (v' : Text) × (get (build_env_map d environment) k ≡ some v')
unfolding build_env_map
env_map_complete d environment k v s = rw⁻¹ (Names-sanitize_env_key s.name k s.named) (
    collect_complete (selected d environment) [] s.name s.record'
      ((selected_iff d environment s.name s.record').1 (s.held, s.tagged)))

get-child_env :
    (parent : Map Text) (d : VaultData) (environment : Option Text) (k : Text)
    → Distinct parent
    → get (child_env parent (build_env_map d environment)) k ≡ (
        if text_eq (codes "LOCKRAIL_PASSWORD") k
        then none
        else or_else (get (build_env_map d environment) k) (get parent k))
unfolding child_env
get-child_env parent d environment k distinct =
    rw
      (
        get-remove (envs parent (build_env_map d environment)) (codes "LOCKRAIL_PASSWORD") k
            (envs-Distinct parent (build_env_map d environment) distinct),
        get-envs parent (build_env_map d environment) k (build_env_map-Distinct d environment),
      )
      refl

-- Where the parent has each variable once, the child has no `LOCKRAIL_PASSWORD`; each other
-- variable has the value of a secret with the tag of the environment whose name, with capital
-- letters, `_` for other characters, and `SECRET_` before a first digit, is the variable, or,
-- where there is no such secret, what it has in the parent.
pub child_env_lem :
    (parent : Map Text) (d : VaultData) (environment : Option Text) (k : Text)
    → Distinct parent
    → ((k ≡ codes "LOCKRAIL_PASSWORD")
        × (get (child_env parent (build_env_map d environment)) k ≡ none))
      ⊎ ((k ≢ codes "LOCKRAIL_PASSWORD")
          × (((v : Text) × (get (child_env parent (build_env_map d environment)) k ≡ some v)
                × FromSecret d environment k v)
              ⊎ (((v : Text) → FromSecret d environment k v → ⊥)
                  × (get (child_env parent (build_env_map d environment)) k ≡ get parent k))))
child_env_lem parent d environment k distinct =
    let whole = get-child_env parent d environment k distinct in
    let same = text_eq_iff (codes "LOCKRAIL_PASSWORD") k in
    elim (Bool-cases (text_eq (codes "LOCKRAIL_PASSWORD") k)) [
      | inl t ↦ inl (sym (same.0 t), ground arith)
      | inr f ↦ inr (
        λ e. absurd (cc (same.1 (sym e), f)),
        elim (Option-cases (get (build_env_map d environment) k)) [
          | inr (v, e) ↦ inl (v, ground arith, env_map_sound d environment k v e)
          | inl n ↦ inr (
            λ v s. (let (v', e) = env_map_complete d environment k v s in cc (n, e)),
            ground arith,
          )
        ],
      )
    ]
