-- ===== src/View/Copy/Shared.antt =====
-- Two views with both tables in common, along what bgpview_copy is made of.
use bgpview.Base.{
  ◌≡◌, refl, ap, ap₂, subst, subst₂, ◌∙◌, Bool, true, false, none, some, Option, if◌then◌else◌,
}
use bgpview.View.Types.{Env, View, State}
use bgpview.View.State.{Action}
use bgpview.Io.Outcome.{Outcome, ok, err, fault}
use bgpview.View.Copy.Leaves.{Leaves}
use bgpview.View.Copy.{aliased, with_dst, Views, Copying, pure, on_src, on_dst, ◌>>=◌}
use bgpview.View.Copy.Reads.{Reads}

-- The views have both tables in common, and the source is `v0`, tables included.
pub record Shared {E : Env} (v0 : View E) (s : Views E) : Type 0 where
  pub signs : s.same_signs ≡ true
  pub paths : s.same_paths ≡ true
  pub src : s.src.view ≡ v0
  pub dst_signs : s.dst.view.peersigns ≡ v0.peersigns
  pub dst_paths : s.dst.view.pathstore ≡ v0.pathstore

-- What works on both views keeps this, whenever it returns, and its result has a property.
unfoldable pub Gives : {E : Env} {A : Type 0} → View E → Copying E A → (A → Type 0) → Type 0
Gives {E} {A} v0 m P =
    (a : A) (s s' : Views E) → Shared v0 s → m s ≡ ok (a, s') → Shared v0 s' × P a

unfoldable pub Keeps : {E : Env} {A : Type 0} → View E → Copying E A → Type 0
Keeps {E} {A} v0 m = (a : A) (s s' : Views E) → Shared v0 s → m s ≡ ok (a, s') → Shared v0 s'

module _ {E : Env} {A B : Type 0} where
  pub Keeps-when :
      (v0 : View E) (m : Copying E A) (f : A → Copying E B) (P : A → Type 0)
      → Gives v0 m P
      → ((a : A) → P a → Keeps v0 (f a))
      → Keeps v0 (m >>= f)
  unfolding Keeps Gives
  Keeps-when v0 m f P first next b s s' h e = from (m s) refl e
    where
      from :
          (o : Outcome (A × Views E))
          → m s ≡ o
          → elim o as (λ _. Outcome (B × Views E)) [
            | ok (a, s1) ↦ f a s1
            | err ↦ err
            | fault ↦ fault
          ]
            ≡ ok (b, s')
          → Shared v0 s'
      from (ok (a, s1)) q d = let (h1, p) = first a s s1 h q in next a p b s1 s' h1 d
      from err q d = cc
      from fault q d = cc

  pub Keeps-bind :
      (v0 : View E) (m : Copying E A) (f : A → Copying E B)
      → Keeps v0 m
      → ((a : A) → Keeps v0 (f a))
      → Keeps v0 (m >>= f)
  unfolding Keeps Gives
  Keeps-bind v0 m f first next = Keeps-when v0 m f (λ a. Unit {0}) (given first) (λ a _. next a)
    where
      given : Keeps v0 m → Gives v0 m (λ a. Unit {0})
      given k a s s' h e = (k a s s' h e, tt)

module _ {E : Env} {A : Type 0} (v0 : View E) where
  pub Gives-src :
      (m : Action E A) (P : A → Type 0)
      → Reads m
      → ((a : A) (t t' : State E) → t.view ≡ v0 → m t ≡ some (a, t') → P a)
      → Gives v0 (on_src m) P
  unfolding Gives Reads
  Gives-src m P reads finds a s s' h e = from (m s.src) refl e
    where
      from :
          (o : Option (A × State E))
          → m s.src ≡ o
          → elim o as (λ _. Outcome (A × Views E)) [
            | none ↦ fault
            | some (b, t) ↦ ok (b, record s { src = t })
          ]
            ≡ ok (a, s')
          → Shared v0 s' × P a
      from none q d = cc
      from (some (b, t)) q d =
          subst₂ (λ x y. Shared v0 x × P y) (same_views d) (same_result d)
            (
              record {
                signs = h.signs;
                paths = h.paths;
                src = reads b s.src t q ∙ h.src;
                dst_signs = h.dst_signs;
                dst_paths = h.dst_paths;
              },
              finds b s.src t h.src q,
            )
        where
          same_views :
              ◌≡◌ {A = Outcome (A × Views E)} (ok (b, record s { src = t })) (ok (a, s'))
              → record s { src = t } ≡ s'
          same_views r = cc

          same_result :
              ◌≡◌ {A = Outcome (A × Views E)} (ok (b, record s { src = t })) (ok (a, s')) → b ≡ a
          same_result r = cc

  pub Keeps-src : (m : Action E A) → Reads m → Keeps v0 (on_src m)
  unfolding Keeps Gives
  Keeps-src m reads a s s' h e = (Gives-src m (λ _. Unit {0}) reads (λ b t t' p q. tt) a s s' h e).0

  -- Of a destination with the tables of the source.
  pub Keeps-dst_when :
      (m : Action E A)
      → ((a : A) (t t' : State E)
          → t.view.peersigns ≡ v0.peersigns
          → m t ≡ some (a, t')
          → (t'.view.peersigns ≡ t.view.peersigns) × (t'.view.pathstore ≡ t.view.pathstore))
      → Keeps v0 (on_dst m)
  unfolding Keeps
  Keeps-dst_when m leaves a s s' h e = from (m s.dst) refl e
    where
      from :
          (o : Option (A × State E))
          → m s.dst ≡ o
          → elim o as (λ _. Outcome (A × Views E)) [
            | none ↦ fault
            | some (b, t) ↦ ok (b, with_dst s t)
          ]
            ≡ ok (a, s')
          → Shared v0 s'
      from none q d = cc
      from (some (b, t)) q d =
          let (signs, paths) = leaves b s.dst t h.dst_signs q in
          let signs' = signs ∙ h.dst_signs in
          let paths' = paths ∙ h.dst_paths in
          subst (Shared v0) (same_views d) (record {
            signs = h.signs;
            paths = h.paths;
            src =
                ap₂ (λ x y. aliased x y t.view s.src.view) h.signs h.paths
                ∙ ap₂ (λ x y. record s.src.view { peersigns = x; pathstore = y }) signs' paths'
                ∙ ap
                    (λ (v : View E). record v {
                      peersigns = v0.peersigns;
                      pathstore = v0.pathstore;
                    })
                    h.src;
            dst_signs = signs';
            dst_paths = paths';
          })
        where
          same_views :
              ◌≡◌ {A = Outcome (A × Views E)} (ok (b, with_dst s t)) (ok (a, s'))
              → with_dst s t ≡ s'
          same_views r = cc

  pub Keeps-dst : (m : Action E A) → Leaves m → Keeps v0 (on_dst m)
  unfolding Leaves
  Keeps-dst m leaves = Keeps-dst_when m (λ a t t' p e. leaves a t t' e)

  pub Keeps-pure : (a : A) → Keeps v0 (pure a)
  unfolding Keeps
  Keeps-pure a b s s' h e = subst (Shared v0) (the_same e) h
    where
      the_same : ◌≡◌ {A = Outcome (A × Views E)} (ok (a, s)) (ok (b, s')) → s ≡ s'
      the_same r = cc

  pub Gives-read :
      (f : Views E → A) (P : A → Type 0)
      → ((s : Views E) → Shared v0 s → P (f s))
      → Gives v0 (λ s. ok (f s, s)) P
  unfolding Gives
  Gives-read f P holds b s s' h e =
      subst₂ (λ x y. Shared v0 x × P y) (the_same e) (the_result e) (h, holds s h)
    where
      the_same : ◌≡◌ {A = Outcome (A × Views E)} (ok (f s, s)) (ok (b, s')) → s ≡ s'
      the_same r = cc

      the_result : ◌≡◌ {A = Outcome (A × Views E)} (ok (f s, s)) (ok (b, s')) → f s ≡ b
      the_result r = cc

  pub Keeps-if :
      (c : Bool) (m n : Copying E A) → Keeps v0 m → Keeps v0 n → Keeps v0 (if c then m else n)
  Keeps-if true m n h k = h
  Keeps-if false m n h k = k

  pub Keeps-choice :
      (c : Bool) (m n : Copying E A)
      → Keeps v0 m
      → Keeps v0 n
      → Keeps v0 (elim c [ true ↦ m | false ↦ n ])
  Keeps-choice true m n h k = h
  Keeps-choice false m n h k = k
