-- ===== src/Moas/Examples.antt =====
-- A view with a prefix of two origins, and the theorems about lib/consumers/bvc_moas.c applied to it.
pub mod Views
use native.Mathlib.Decide.{ℕ_discrete}
use mathlib.Core.List.{Memᴰ}
use bgpview.Base.{
  ℕ, ◌+◌, ◌%◌, ◌^◌, ◌≡◌, ◌≢◌, zero, suc, sym, ap, ap₂, subst, ◌∙◌, inl, inr, Option-cases, ◌≤◌, ◌<◌,
  ◌↔◌, refl, Bool, true, false, Option, none, some, List, [], ◌∷◌, ◌++◌, arith, length, leb,
  if◌then◌else◌,
}
use bgpview.Khash.Buckets.{Buckets, slot, Unique}
use bgpview.Khash.Lookup.{value_at, value_at-some}
use bgpview.Khash.Linear.{linear}
use bgpview.View.Field.{active, no_counts}
use bgpview.View.Types.{unknown, ipv6, PfxInfo, PfxPeerInfo, View, State}
use bgpview.View.Examples.{small, sample, at_pair, counts, peer}
use bgpview.Io.Outcome.{ok}
use bgpview.Moas.Types.{
  new, newrec, ongoing, finished, MoasProperties, MoasSignature, MoasInfo, Moases, MoasEnv, asn,
  Event, Log, MoasState, moasinfo_map_equal,
}
use bgpview.Moas.Table.{note_moas, clean_moas, finished_event}
use bgpview.Moas.Note.{Placed, within, moas_at, note_moas-moas_at}
use bgpview.Moas.Clean.{clean_moas-moas_at}
use bgpview.Moas.Finished.{Over, clean_moas-events}
use bgpview.Moas.Round.{
  note_all, Running, Detected, EndsBefore, clean_moas-Running, clean_moas-finishes,
  clean_moas_forgets,
}
use bgpview.Moas.Equal.{moasinfo_map_equal-qsort}
use bgpview.Moas.Process.{start_view, process_view}
use bgpview.Moas.Process.Detection.{GoodAfter, process_view-GoodAfter}

-- Insertion sort.
abbrev pub insert : ℕ → List ℕ → List ℕ
insert n [] = n ∷ []
insert n (x ∷ xs) = let rest = x ∷ insert n xs in if leb n x then n ∷ x ∷ xs else rest

abbrev pub sort : List ℕ → List ℕ
sort [] = []
sort (x ∷ xs) = insert x (sort xs)

abbrev pub no_properties : MoasProperties
no_properties = record { first_seen = 0; start = 0; end = 0 }

-- Signatures can be compared.
same_cons : {x y : ℕ} {xs ys : List ℕ} → x ∷ xs ≡ y ∷ ys → (x ≡ y) × (xs ≡ ys)
same_cons e = (cc, cc)

pub both : {x y : ℕ} {xs ys : List ℕ} → Dec (x ≡ y) → Dec (xs ≡ ys) → Dec (x ∷ xs ≡ y ∷ ys)
both (yes p) (yes q) = yes (ap₂ ◌∷◌ p q)
both (yes p) (no n) = no (λ e. n (same_cons e).1)
both (no n) q = no (λ e. n (same_cons e).0)

pub same_ms : Discrete (List ℕ)
unfolding both
same_ms [] [] = yes refl
same_ms [] (y ∷ ys) = no (λ e. cc)
same_ms (x ∷ xs) [] = no (λ e. cc)
same_ms (x ∷ xs) (y ∷ ys) = both (ℕ_discrete x y) (same_ms xs ys)

-- The origin of a path is its id, no prefix is in the blacklist, and every peer is a full-feed one.
abbrev pub moas_env : MoasEnv small
moas_env = record {
  moasinfo_hash = linear same_ms no_properties;
  moases_hash = linear ℕ_discrete [];
  qsort = sort;
  origin_seg = λ store id. some (asn id);
  blacklist_pfxs = λ p. false;
  full_feed_peer_ids = λ version id. true;
}

abbrev pub ms78 : MoasSignature
ms78 = 8 ∷ 7 ∷ []

-- One MOAS of the prefix 8, of the AS numbers 7 and 8, since time 5.
abbrev pub moases : Moases ℕ
moases = some (8, some (7 ∷ 8 ∷ [], record { first_seen = 5; start = 5; end = 9 }) ∷ []) ∷ []

-- A table of one entry.
one_slot : {K V : Type 0} (e d : K × V) (i : ℕ) → slot (some e ∷ []) i ≡ some d → e ≡ d
one_slot e d zero h = cc
one_slot e d (suc i) h = cc

one_Unique : {K V : Type 0} (k : K) (v : V) → Unique (some (k, v) ∷ [])
one_Unique k v zero zero j a b h h' = refl
one_Unique k v zero (suc i) j a b h h' = cc
one_Unique k v (suc i) n j a b h h' = cc

abbrev the_moas : MoasProperties
the_moas = record { first_seen = 5; start = 5; end = 9 }

abbrev the_map : MoasInfo
the_map = some (7 ∷ 8 ∷ [], the_moas) ∷ []

pub moases-Placed : Placed moas_env moases
moases-Placed = (
  one_Unique 8 the_map,
  λ i p per e.
      subst (λ (t : MoasInfo). Unique t) (ap (λ x. x.1) (one_slot (8, the_map) (p, per) i e))
        (one_Unique (7 ∷ 8 ∷ []) the_moas),
)

-- Its one MOAS.
at_moases :
    (pfx : ℕ) (key : MoasSignature) (mp : MoasProperties)
    → moas_at moas_env moases pfx key ≡ some mp
    → the_moas ≡ mp
at_moases pfx key mp e = elim (Option-cases (value_at moas_env.moases_hash moases pfx)) [
  | inl d ↦ absurd (no_moas (sym (ap (λ x. within moas_env x key) d) ∙ e))
  | inr (per, d) ↦
      let at = value_at-some moas_env.moases_hash moases pfx per moases-Placed.0 d in
      let same : the_map ≡ per = ap (λ x. x.1) (one_slot (8, the_map) (pfx, per) _ at) in
      let at' =
        value_at-some moas_env.moasinfo_hash the_map key mp (one_Unique (7 ∷ 8 ∷ []) the_moas) (
          ap (λ x. within moas_env (some x) key) same
          ∙ sym (ap (λ x. within moas_env x key) d)
          ∙ e) in
      ap (λ x. x.1) (one_slot (7 ∷ 8 ∷ [], the_moas) (key, mp) _ at')
]
  where
    no_moas : ◌≡◌ {A = Option MoasProperties} none (some mp) → ⊥
    no_moas d = cc

pub ended : EndsBefore moas_env 10 moases
ended pfx key mp e =
    subst (λ (x : MoasProperties). x.end < 10) (at_moases pfx key mp e) (omega arith)

abbrev pub empty_log : Log ℕ
empty_log = record {
  wandio_fh = [];
  new_moas_pfxs_count = 0;
  new_recurring_moas_pfxs_count = 0;
  ongoing_moas_pfxs_count = 0;
  finished_moas_pfxs_count = 0;
}

-- The MOAS is seen again.
note_moas-moas_at_example :
    (t' : Moases ℕ) × (note_moas moas_env 8 ms78 10 3 moases ≡ ok (ongoing, t'))
    × Placed moas_env t'
    × (moas_at moas_env t' 8 (7 ∷ 8 ∷ []) ≡ some (record { first_seen = 5; start = 5; end = 10 }))
    × ((key : MoasSignature)
        → key ≢ (7 ∷ 8 ∷ [])
        → moas_at moas_env t' 8 key ≡ moas_at moas_env moases 8 key)
    × ((q : ℕ) (key : MoasSignature)
        → q ≢ 8
        → moas_at moas_env t' q key ≡ moas_at moas_env moases q key)
unfolding same_ms both ℕ_discrete
note_moas-moas_at_example = note_moas-moas_at moas_env 8 ms78 10 3 moases moases-Placed

-- The view of time 10 has none, so it is over.
clean_moas-moas_at_example :
    moas_at moas_env (clean_moas moas_env 10 3 moases empty_log).0 8 (7 ∷ 8 ∷ [])
    ≡ some (record { first_seen = 5; start = 0; end = 9 })
unfolding same_ms both ℕ_discrete
clean_moas-moas_at_example =
    clean_moas-moas_at moas_env 10 3 moases empty_log 8 (7 ∷ 8 ∷ []) moases-Placed

clean_moas-events_example :
    let l' = (clean_moas moas_env 10 3 moases empty_log).1 in
    (es : List (Event ℕ)) × (l'.wandio_fh ≡ es)
    × (l'.finished_moas_pfxs_count ≡ (0 + length es) % 2 ^ 32)
    × ((e : Event ℕ)
        → Memᴰ e es
        → (pfx : ℕ) × (key : MoasSignature) × (mp : MoasProperties) × (moas_at moas_env moases pfx
              key
            ≡ some mp)
          × Over 10 3 mp
          × (e ≡ finished_event moas_env 10 3 pfx key))
    × ((pfx : ℕ) (key : MoasSignature) (mp : MoasProperties)
        → moas_at moas_env moases pfx key ≡ some mp
        → Over 10 3 mp
        → Memᴰ (finished_event moas_env 10 3 pfx key) es)
clean_moas-events_example =
    clean_moas-events moas_env 10 3 moases empty_log moases-Placed (omega arith)

-- The prefix 8 has a MOAS of the AS numbers 9 and 7 instead.
abbrev other_moas : List (ℕ × MoasSignature)
other_moas = (8, 9 ∷ 7 ∷ []) ∷ []

clean_moas-Running_example :
    (t' : Moases ℕ) × (note_all moas_env 10 3 other_moas moases ≡ ok t')
    × (let t2 = (clean_moas moas_env 10 3 t' empty_log).0 in
        Placed moas_env t2
        × EndsBefore moas_env 11 t2
        × ((pfx : ℕ) (key : MoasSignature)
            → Running moas_env t2 pfx key ↔ Detected moas_env other_moas pfx key))
clean_moas-Running_example =
    clean_moas-Running moas_env ℕ_discrete 10 3 (omega arith) other_moas moases empty_log
      moases-Placed (omega arith) ended

clean_moas-finishes_example :
    (t' : Moases ℕ) × (es : List (Event ℕ)) × (note_all moas_env 10 3 other_moas moases ≡ ok t')
    × ((clean_moas moas_env 10 3 t' empty_log).1.wandio_fh ≡ es)
    × ((pfx : ℕ) (key : MoasSignature)
        → Memᴰ (finished_event moas_env 10 3 pfx key) es
          ↔ (Running moas_env moases pfx key × (Detected moas_env other_moas pfx key → ⊥)))
clean_moas-finishes_example =
    clean_moas-finishes moas_env ℕ_discrete 10 3 (omega arith) other_moas moases empty_log
      moases-Placed (omega arith) ended
      (λ pfx key mp e h.
        subst (λ (x : MoasProperties). 3 ≤ x.end) (at_moases pfx key mp e) (omega arith))

-- The next view comes at time 100, and the window is of 10 seconds.
clean_moas_forgets_example :
    let r = clean_moas moas_env 100 90 moases empty_log in
    (moas_at moas_env r.0 8 (7 ∷ 8 ∷ []) ≡ none)
    × ((es : List (Event ℕ)) × (r.1.wandio_fh ≡ es)
        × (Memᴰ (finished_event moas_env 100 90 8 (7 ∷ 8 ∷ [])) es → ⊥))
unfolding same_ms both ℕ_discrete
clean_moas_forgets_example =
    clean_moas_forgets moas_env ℕ_discrete 100 90 (omega arith) moases empty_log 8 (7 ∷ 8 ∷ [])
      the_moas moases-Placed (omega arith) refl (omega arith) (omega arith)

length-insert : (n : ℕ) (xs : List ℕ) → length (insert n xs) ≡ suc (length xs)
length-insert n [] = refl
length-insert n (x ∷ xs) = ground (arith, length-insert n xs)

length-sort : (xs : List ℕ) → length (sort xs) ≡ length xs
length-sort [] = refl
length-sort (x ∷ xs) = omega (arith, length-insert x (sort xs), length-sort xs)

moasinfo_map_equal-qsort_example :
    (moasinfo_map_equal sort (8 ∷ 7 ∷ []) (7 ∷ 8 ∷ []) ≡ true) ↔ (sort ms78 ≡ 7 ∷ 8 ∷ [])
moasinfo_map_equal-qsort_example =
    moasinfo_map_equal-qsort sort length-sort (8 ∷ 7 ∷ []) (7 ∷ 8 ∷ [])
