-- ===== src/Zmq/Views.antt =====
-- The views of lib/bgpview.c in the store of lib/io/zmq/bgpview_io_zmq_store.c.
use bgpview.Base.{ℕ, true, ◌≡◌, refl, Option, none, some, List, [], Bool, arith}
use bgpview.Khash.Buckets.{Buckets, entries}
use bgpview.Khash.Interface.{Khash}
use bgpview.View.Field.{cnt_by_mask}
use bgpview.View.Types.{PfxPeerInfo, Env, View, State}
use bgpview.View.Access.{
  get_time, set_time, get_time_created, pfx_cnt, v4pfx_cnt, v6pfx_cnt, disable_user_data,
}
use bgpview.View.Activate.{new_iter}
use bgpview.View.Clear.{clear}
use bgpview.View.Clear.Whole.{clear-Cleared}
use bgpview.View.Lifecycle.{create_shared}
use bgpview.Zmq.Sview.Runs.{Clears}
use bgpview.Zmq.Types.{ClientInfo, NameSet, ViewOps, ZmqEnv}

module _ (E : Env) (kh_clear : Buckets ℕ PfxPeerInfo → Buckets ℕ PfxPeerInfo) (signs : E.SigMap)
    (paths : E.PathStore) where
  -- A view with an iterator of its own.
  abbrev alone : View E → State E
  alone v = record { view = v; iter = new_iter v; calls = [] }

  -- The view that store_view_create makes, before and after bgpview_disable_user_data.
  abbrev shared_view : ℕ → View E
  shared_view now = create_shared now signs paths (some signs) (some paths) 0 0 0 0

  abbrev new_view : ℕ → View E
  new_view now = record (shared_view now) { disable_extended = true }

  new_view-made :
      (now : ℕ)
      → (s : State E) × (disable_user_data (alone (shared_view now)) ≡ some (tt, s))
        × (s.view ≡ new_view now)
  unfolding disable_user_data create_shared pfx_cnt cnt_by_mask v4pfx_cnt v6pfx_cnt
  new_view-made now = (record (alone (shared_view now)) { view = new_view now }, refl, refl)

  -- bgpview_clear of a view
  abbrev cleared : ℕ → View E → Option (View E)
  cleared now v = elim (clear kh_clear now (alone v)) [ none ↦ none | some (_, s) ↦ some s.view ]

  get_time-set_time : (t : ℕ) (v : View E) → get_time (set_time t v) ≡ t
  unfolding get_time set_time
  get_time-set_time t v = refl

  abbrev view_ops : ViewOps
  view_ops = record {
    View = View E;
    create = new_view;
    clear = cleared;
    get_time = get_time;
    get_time_created = get_time_created;
    set_time = set_time;
    get_time_set = get_time-set_time;
  }

  module _ (Name : Type 0) (names : NameSet Name) (clients_hash : Khash Name (ClientInfo Name))
      (sends : List (View E) → View E → Bool) where
    -- What the store works with, where the views are those of lib/bgpview.c.
    abbrev with_views : ZmqEnv
    with_views = record {
      ops = view_ops;
      Name = Name;
      names = names;
      clients_hash = clients_hash;
      sends = sends;
    }

    -- Clearing a view returns, as the theorems about the store ask of it.
    with_views-Clears :
        ((t : Buckets ℕ PfxPeerInfo) → entries (kh_clear t) ≡ []) → Clears with_views
    with_views-Clears clears now v =
        let r = clear-Cleared kh_clear clears now (alone v) in (r.0.view, ground (arith, r.1))
