-- ===== src/Vault/Steps/Agents.antt =====
-- What the list of agents and their documents tell of loading them.
use mathlib.Core.Path.{subst}
use lockrail.Prelude.{
  ◌≡◌, ◌≢◌, ◌↔◌, refl, ap, ℕ, true, ◌||◌, inl, inr, some, List, [], ◌∷◌, ◌++◌, map, err,
  Option-cases, Bool-cases, Result-cases, arith, Member,
}
use lockrail.Prelude.Map.{Map, Distinct, get}
use lockrail.Prelude.Text.{Text, text_eq_iff}
use lockrail.Protocol.Agent.{AgentPublicDoc}
use lockrail.Vault.Agents.{load_agent, list_agents, listed, is_revoked, loaded}
use lockrail.Vault.Document.{AgentRecord, agent_secret_prefix}
use lockrail.Vault.Envelope.{seal_data}
use lockrail.Vault.Error.{revoked}
use lockrail.Vault.Exec.{
  Failure, refused, Session, Write, written, failed, unsynced, Exec, ◌>>=◌, write_file,
  write_result, gets, lift, refuse, modify, pure,
}
use lockrail.Vault.Keys.{used, require, use_key, put_record}
use lockrail.Vault.Libraries.{Libraries}
use lockrail.Vault.Order.{in_order, in_order_iff}
use lockrail.Vault.Save.{Io, save, sealed}
use lockrail.Vault.WellFormed.{WellFormed}

-- A member of a mapped list comes from a member of the list.
Member-map :
    {A B : Type 0} (f : A → B) (xs : List A) (y : B)
    → Member y (map f xs)
    → (x : A) × Member x xs × (f x ≡ y)
Member-map f [] y m = absurd m
Member-map f (x ∷ xs) y (inl e) = (x, inl refl, e)
Member-map f (x ∷ xs) y (inr m) = let (z, n, e) = Member-map f xs y m in (z, inr n, e)

-- In a map with each key once, an entry is what its key has.
get-Member :
    {V : Type 0} (m : Map V) (k : Text) (v : V) → Distinct m → Member (k, v) m → get m k ≡ some v
unfolding get
get-Member [] k v d h = absurd h
get-Member ((j, w) ∷ m) k v (n, d) (inl e) =
    let same : j ≡ k = ap (λ x. x.0) e in
    let value : w ≡ v = ap (λ x. x.1) e in ground (arith, text_eq_iff j k)
get-Member ((j, w) ∷ m) k v (n, d) (inr h) = ground (arith, get-Member m k v d h, text_eq_iff j k)

-- A chain that ends well on from its first step fails only as this step does.
step_ne :
    {A B : Type 0} (m : Exec A) (f : A → B) (x : Failure) (s : Session)
    → (m s).0 ≢ err x
    → ((m >>= λ a. pure (f a)) s).0 ≢ err x
unfolding ◌>>=◌ pure
step_ne m f x s n h = elim (Result-cases (m s).0) [
  | inl (a, e) ↦ cc (rw e at h)
  | inr (y, e) ↦ n (cc (rw e at h, e))
]

module _ (libs : Libraries) (s : Session) where
  sealed_ne : (io : Io) → sealed libs io s ≢ err revoked
  unfolding seal_data
  sealed_ne io h = ground arith

  write_file_ne : (w : Write) (bytes : Text) → (write_file w bytes s).0 ≢ err (refused revoked)
  unfolding write_file write_result
  write_file_ne written bytes h = cc
  write_file_ne failed bytes h = cc
  write_file_ne unsynced bytes h = cc

  -- No save is refused as a revocation.
  save_ne : (io : Io) → (save libs io s).0 ≢ err (refused revoked)
  unfolding save gets lift refuse ◌>>=◌
  save_ne io h = elim (Bool-cases io.locked) [
    | inr e ↦ cc (rw e at h)
    | inl e ↦ elim (Result-cases (sealed libs io s)) [
      | inl (bytes, y) ↦ write_file_ne io.write bytes (rw (e, y) at h)
      | inr (f, n) ↦ sealed_ne io (cc (rw (e, n) at h, n))
    ]
  ]

module _ (libs : Libraries) (s : Session) where
  use_key_ne :
      (now : ℕ) (io : Io) (name : Text) → (use_key libs now io name s).0 ≢ err (refused revoked)
  unfolding use_key require ◌>>=◌ gets lift modify pure
  use_key_ne now io name h = elim (Option-cases (get s.data'.keys name)) [
    | inl n ↦ cc (rw n at h)
    | inr (r, e) ↦
        step_ne (save libs io) (λ u. r.value) (refused revoked)
          (record s { data' = put_record name (used now r) s.data' })
          (save_ne libs (record s { data' = put_record name (used now r) s.data' }) io) (rw e at h)
  ]

  -- Loading an agent whose record is known.
  load_agent_iff :
      (now : ℕ) (io : Io) (id : Text) (r : AgentRecord)
      → get s.data'.agents id ≡ some r
      → ((r.revoked || is_revoked s.data' id) ≡ true)
        ↔ ((load_agent libs now io id s).0 ≡ err (refused revoked))
  unfolding load_agent require ◌>>=◌ gets lift refuse pure
  load_agent_iff now io id r e = elim (Bool-cases (r.revoked || is_revoked s.data' id)) [
    | inl t ↦ rw (e, t) (λ h. refl, λ h. refl)
    | inr f ↦
        rw (e, f)
          (
            λ h. cc,
            λ h. absurd (
                step_ne (use_key libs now io (agent_secret_prefix ++ id)) (loaded r.public)
                  (refused revoked) s (use_key_ne now io (agent_secret_prefix ++ id)) h),
          )
  ]

  -- Where the data are in order, the list of agents reports an agent as revoked exactly if
  -- loading it is refused as revoked.
  pub list_agents_iff :
      (now : ℕ) (io : Io) (p : AgentPublicDoc)
      → WellFormed libs s.data'
      → Member p (list_agents s.data')
      → (p.revoked ≡ true) ↔ ((load_agent libs now io p.agent_id s).0 ≡ err (refused revoked))
  unfolding list_agents listed
  list_agents_iff now io p w m =
      let ((k, r), n, e) = Member-map (λ (k, r). listed s.data' r) (in_order s.data'.agents) p m in
      let found : get s.data'.agents k ≡ some r =
        get-Member s.data'.agents k r w.agents ((in_order_iff s.data'.agents (k, r)).0 n) in
      let here : r.public.agent_id ≡ k = w.ids k r found in
      subst
        (λ q.
          (q.revoked ≡ true) ↔ ((load_agent libs now io q.agent_id s).0 ≡ err (refused revoked)))
        e (load_agent_iff now io r.public.agent_id r (rw here found))
