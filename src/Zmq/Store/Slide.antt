-- ===== src/Zmq/Store/Slide.antt =====
-- The loop of store_view_get that slides the window: a round, and how the loop ends.
pub mod Rounds
use bgpview.Base.{
  ℕ, zero, suc, ◌+◌, ◌-◌, ◌*◌, ◌%◌, ◌^◌, ◌≤◌, ◌<◌, ◌≡◌, ◌≢◌, refl, sym, ap, ap₂, subst, subst₂, ◌∙◌,
  ◌⊎◌, inl, inr, Bool, true, false, none, some, List, length, leb, ltb, arith, get_elem?,
  get_elem?-some, get_elem?-lt, Bool-cases,
}
use bgpview.View.Types.{Ret, minus_one, zero_ret, one_ret}
use bgpview.Zmq.Types.{
  StoreViewState, unused, unknown, partial, full, wdw_exceeded, ZmqEnv, StoreView, Store, item_time,
  u32,
}
use bgpview.Zmq.Op.{unless_failed}
use bgpview.Zmq.Sview.{is_unused, completion_check}
use bgpview.Zmq.Sview.Runs.{Clears}
use bgpview.Zmq.Store.{slide}
use bgpview.Zmq.Store.Window.{offset, wrap_mod, InPlace, Placed, Window, Placed-advanced}
use bgpview.Zmq.Store.Checked.{Below, Removed, Checked, completion_check-Removed}

pub in_use : (x : StoreViewState) → (x ≡ unused) ⊎ ((x ≢ unused) × (is_unused x ≡ false))
in_use unused = inl refl
in_use unknown = inr (λ e. cc, refl)
in_use partial = inr (λ e. cc, refl)
in_use full = inr (λ e. cc, refl)

pub offset_self : (cnt f : ℕ) → offset cnt f f ≡ 0
offset_self cnt f = ground arith

-- The next place of the buffer.
pub next_place : (cnt f i : ℕ) → f < cnt → i < cnt → ((i + f) % cnt + 1) % cnt ≡ (i + 1 + f) % cnt
next_place cnt f i p q =
    ground (arith, wrap_mod cnt (i + f), wrap_mod cnt (i + 1 + f), wrap_mod cnt ((i + f) % cnt + 1))

module _ {Z : ZmqEnv} where
  -- The window set to begin at a place and a time.
  abbrev pub rebased : (idx first : ℕ) → Store Z → Store Z
  rebased idx first s = record s { sviews_first_idx = idx; sviews_first_time = first }

-- Before the i-th round: the views before it are gone.
pub record Sliding {Z : ZmqEnv} (h cnt f0 t0 min i : ℕ) (s : Store Z) : Type 0 where
  pub placed : Placed h cnt ((i + f0) % cnt) (t0 + i * 300) s.sviews
  pub cnt_eq : s.sviews_cnt ≡ cnt
  pub below : Below (t0 + cnt * 300) s.sviews
  pub le : t0 + i * 300 ≤ min
  pub idx_lt : s.sviews_first_idx < cnt
  pub time_le : s.sviews_first_time ≤ min

-- After the loop: what is in use is in the window that begins at `min`, and a view that was there
-- before is there still.
pub record Slid {Z : ZmqEnv} (h cnt min : ℕ) (s s' : Store Z) : Type 0 where
  pub placed : Placed h cnt s'.sviews_first_idx min s'.sviews
  pub cnt_eq : s'.sviews_cnt ≡ cnt
  pub time_le : s'.sviews_first_time ≤ min
  pub clients : s'.active_clients ≡ s.active_clients
  pub kept :
      (j : ℕ) (u : StoreView Z)
      → get_elem? s.sviews j ≡ some u
      → u.state ≢ unused
      → min ≤ Z.ops.get_time u.view
      → get_elem? s'.sviews j ≡ some u

-- What the loop returns: an error, where a view could not be sent, or such a store.
pub data Ends {Z : ZmqEnv} (h cnt min : ℕ) (s : Store Z) : Ret → Store Z → Type 0 where
  stopped : (s' : Store Z) → Window h s' → Ends h cnt min s minus_one s'
  slid : (s' : Store Z) → Slid h cnt min s s' → Ends h cnt min s zero_ret s'

-- The loop from the k-th round on returns, and ends in one of these ways.
abbrev pub Finishes : {Z : ZmqEnv} (h cnt f0 t0 min now n k : ℕ) (s : Store Z) → Type 0
Finishes {Z} h cnt f0 t0 min now n k s =
    (r : Ret) × (s' : Store Z) × (slide {Z = Z} now min f0 t0 n k s ≡ some (r, s'))
    × Ends h cnt min s r s'

pub Ends-after :
    {Z : ZmqEnv} {h cnt min : ℕ} {s t : Store Z}
    → ((s' : Store Z) → Slid h cnt min t s' → Slid h cnt min s s')
    → {r : Ret} {s' : Store Z} → Ends h cnt min t r s'
    → Ends h cnt min s r s'
Ends-after f (stopped s' w) = stopped s' w
Ends-after f (slid s' d) = slid s' (f s' d)

module _ {Z : ZmqEnv} (now min f0 t0 n i idx slot_time : ℕ) (s : Store Z) (v : StoreView Z)
    (place : idx ≡ (i + f0) % s.sviews_cnt) (time : slot_time ≡ u32 (i * item_time + t0))
    (e : get_elem? s.sviews idx ≡ some v) where
  pub slide-stop :
      leb min slot_time ≡ true
      → slide now min f0 t0 (suc n) i s ≡ some (zero_ret, rebased idx slot_time s)
  unfolding slide
  slide-stop q = ground arith

  pub slide-skip :
      leb min slot_time ≡ false
      → v.state ≡ unused
      → slide now min f0 t0 (suc n) i s ≡ slide now min f0 t0 n (i + 1) (rebased idx slot_time s)
  unfolding slide
  slide-skip q p = ground arith

  pub slide-check :
      leb min slot_time ≡ false
      → is_unused v.state ≡ false
      → (r : Ret) (s' : Store Z)
      → completion_check now idx wdw_exceeded (rebased idx slot_time s) ≡ some (r, s')
      → slide now min f0 t0 (suc n) i s ≡ unless_failed r (slide now min f0 t0 n (i + 1)) s'
  unfolding slide
  slide-check q p r s' d = ground arith
