-- ===== src/View/State.antt =====
-- Operations on a view through an iterator, as actions on a state that stop at a fault: a failed
-- assert, or a read or write where there is no entry.
use bgpview.Base.{Bool, true, false, Option, none, some, []}
use bgpview.Khash.Buckets.{Buckets}
use bgpview.View.Field.{Counts}
use bgpview.View.Types.{AddrVersion, unknown, ipv4, ipv6, PfxInfo, Env, View, Iter, State}

abbrev pub Action : Env → Type 0 → Type 0
Action E A = State E → Option (A × State E)

module _ {E : Env} {A : Type 0} where
  abbrev pub pure : A → Action E A
  pure a s = some (a, s)

  abbrev pub fault : Action E A
  fault s = none

  abbrev pub from_option : Option A → Action E A
  from_option none s = none
  from_option (some a) s = some (a, s)

  -- Runs an action with an iterator of its own over the same view.
  abbrev pub with_iter : Iter → Action E A → Action E A
  with_iter i m s = elim (m (record s { iter = i })) [
    | none ↦ none
    | some (a, s') ↦ some (a, record s' { iter = s.iter })
  ]

module _ {E : Env} {A B : Type 0} where
  infixl 5 ◌>>=◌
  abbrev pub ◌>>=◌ : Action E A → (A → Action E B) → Action E B
  ◌>>=◌ m f s = elim (m s) [ none ↦ none | some (a, s') ↦ f a s' ]

module _ {E : Env} {B : Type 0} where
  infixl 5 ◌>>◌
  abbrev pub ◌>>◌ : Action E (Unit {0}) → Action E B → Action E B
  m >> k = m >>= λ _. k

module _ {E : Env} where
  abbrev pub assert : Bool → Action E (Unit {0})
  assert true s = some (tt, s)
  assert false s = none

  abbrev pub get_view : Action E (View E)
  get_view s = some (s.view, s)

  abbrev pub put_view : View E → Action E (Unit {0})
  put_view v s = some (tt, record s { view = v })

  abbrev pub get_iter : Action E Iter
  get_iter s = some (s.iter, s)

  abbrev pub put_iter : Iter → Action E (Unit {0})
  put_iter i s = some (tt, record s { iter = i })

  -- The prefix table of a version; an unknown version has none.
  abbrev pub pfx_table : AddrVersion → View E → Buckets E.Pfx PfxInfo
  pfx_table unknown v = []
  pfx_table ipv4 v = v.v4pfxs
  pfx_table ipv6 v = v.v6pfxs

  abbrev pub set_pfx_table : AddrVersion → Buckets E.Pfx PfxInfo → View E → View E
  set_pfx_table unknown t v = v
  set_pfx_table ipv4 t v = record v { v4pfxs = t }
  set_pfx_table ipv6 t v = record v { v6pfxs = t }

  abbrev pub set_pfx_cnt : AddrVersion → (Counts → Counts) → View E → View E
  set_pfx_cnt unknown f v = v
  set_pfx_cnt ipv4 f v = record v { v4pfxs_cnt = f v.v4pfxs_cnt }
  set_pfx_cnt ipv6 f v = record v { v6pfxs_cnt = f v.v6pfxs_cnt }

  -- The flag of a prefix table that it holds invalid prefixes.
  abbrev pub set_need_gc : AddrVersion → View E → View E
  set_need_gc unknown v = v
  set_need_gc ipv4 v = record v { need_gc_v4pfxs = true }
  set_need_gc ipv6 v = record v { need_gc_v6pfxs = true }
