-- ===== src/Vault/Order.antt =====
-- The order in which a `BTreeMap` is iterated: by key. `Map` holds the entries in any order.
use lockrail.Prelude.{◌≡◌, ◌↔◌, ◌⊎◌, [], ◌∷◌, Member, arith}
use lockrail.Prelude.Map.{Map}
use lockrail.Prelude.Text.{Text}
use lockrail.Protocol.Json.{compare_text}
use Prim.Native.Nat.{Ordering}

module _ {V : Type 0} where
  -- Where the entry goes, by the comparison with the first.
  place : Ordering → Text × V → Text × V → Map V → Map V → Map V
  place Ordering.gt e f m rest = f ∷ rest
  place Ordering.lt e f m rest = e ∷ f ∷ m
  place Ordering.eq e f m rest = e ∷ f ∷ m

  put_in_order : Text × V → Map V → Map V
  unfolding place
  put_in_order e [] = e ∷ []
  put_in_order e (f ∷ m) = place (compare_text e.0 f.0) e f m (put_in_order e m)

  unfoldable pub in_order : Map V → Map V
  unfolding put_in_order
  in_order [] = []
  in_order (e ∷ m) = put_in_order e (in_order m)

  Member-place :
      (o : Ordering) (e f : Text × V) (m rest : Map V) (x : Text × V)
      → (Member x rest ↔ ((e ≡ x) ⊎ Member x m))
      → Member x (place o e f m rest) ↔ ((e ≡ x) ⊎ Member x (f ∷ m))
  unfolding place
  Member-place Ordering.gt e f m rest x h = ground (arith, h)
  Member-place Ordering.lt e f m rest x h = ground (arith, h)
  Member-place Ordering.eq e f m rest x h = ground (arith, h)

  Member-put_in_order :
      (e : Text × V) (m : Map V) (x : Text × V)
      → Member x (put_in_order e m) ↔ ((e ≡ x) ⊎ Member x m)
  unfolding put_in_order
  Member-put_in_order e [] x = ground arith
  Member-put_in_order e (f ∷ m) x =
      Member-place (compare_text e.0 f.0) e f m (put_in_order e m) x (Member-put_in_order e m x)

  -- The iteration meets the entries of the map and no others.
  pub in_order_iff : (m : Map V) (x : Text × V) → Member x (in_order m) ↔ Member x m
  unfolding in_order
  in_order_iff [] x = ground arith
  in_order_iff (e ∷ m) x = ground (arith, Member-put_in_order e (in_order m) x, in_order_iff m x)
