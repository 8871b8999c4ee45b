-- ===== src/Zmq/Op.antt =====
-- Operations on the store: they go on from a state, or stop at a failed assert or a bad access.
use bgpview.Base.{ℕ, Bool, true, false, Option, none, some, ltb, length, get_elem?, set}
use bgpview.View.Types.{Ret, minus_one, zero_ret, one_ret}
use bgpview.Zmq.Types.{ZmqEnv, Store, StoreView}

abbrev pub Op : ZmqEnv → Type 0 → Type 0
Op Z A = Store Z → Option (A × Store Z)

module _ {Z : ZmqEnv} {A : Type 0} where
  abbrev pub pure : A → Op Z A
  pure a s = some (a, s)

  abbrev pub from_option : Option A → Op Z A
  from_option none s = none
  from_option (some a) s = some (a, s)

  abbrev pub gets : (Store Z → A) → Op Z A
  gets f s = some (f s, s)

module _ {Z : ZmqEnv} {A B : Type 0} where
  infixl 5 ◌>>=◌
  abbrev pub ◌>>=◌ : Op Z A → (A → Op Z B) → Op Z B
  ◌>>=◌ m f s = elim (m s) [ none ↦ none | some (a, s') ↦ f a s' ]

module _ {Z : ZmqEnv} {B : Type 0} where
  infixl 5 ◌>>◌
  abbrev pub ◌>>◌ : Op Z (Unit {0}) → Op Z B → Op Z B
  m >> k = m >>= λ _. k

module _ {Z : ZmqEnv} where
  abbrev pub assert : Bool → Op Z (Unit {0})
  assert true s = some (tt, s)
  assert false s = none

  abbrev pub modify : (Store Z → Store Z) → Op Z (Unit {0})
  modify f s = some (tt, f s)

  -- store->sviews[i]
  abbrev pub get_sview : ℕ → Op Z (StoreView Z)
  get_sview i s = from_option (get_elem? s.sviews i) s

  -- store->sviews[i] = sview, or a write through the pointer that is there
  abbrev pub put_sview : ℕ → StoreView Z → Op Z (Unit {0})
  put_sview i sview s = elim (ltb i (length s.sviews)) [
    | false ↦ none
    | true ↦ some (tt, record s { sviews = set s.sviews i sview })
  ]

  -- A call whose result is an error or not: what follows, where it is not.
  abbrev pub unless_failed : Ret → Op Z Ret → Op Z Ret
  unless_failed minus_one m = pure minus_one
  unless_failed zero_ret m = m
  unless_failed one_ret m = m
