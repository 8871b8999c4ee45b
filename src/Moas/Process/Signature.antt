-- ===== src/Moas/Process/Signature.antt =====
-- The signature that bvc_moas_process_view collects for a prefix.
use bgpview.Base.{
  ℕ, ◌≡◌, ◌≤◌, ◌<◌, refl, subst, true, false, Option, none, some, [], ◌∷◌, ◌++◌, inl, inr, arith,
  length, length-append, ltb, ◌==◌, if◌then◌else◌, Bool-cases,
}
use bgpview.View.Types.{AddrVersion, Env}
use bgpview.View.Store.{get_peer_id}
use bgpview.View.Access.{iter_pfx_peer_get_as_path_store_path_id}
use bgpview.Io.Outcome.{ok}
use bgpview.Io.Row.{run, pure, lift, fail}
use bgpview.Moas.Types.{MoasSignature, MoasEnv, Seg, asn, other_seg}
use bgpview.Moas.Process.{max_unique_origins, has_origin, add_origin, collect_origin}
use bgpview.Io.Row.Ends.{Ends, Ends-after, Ends-pure, Ends-ite, Ends-lift}

-- No AS number is there twice, and there are no more than the array has room for.
abbrev pub NoRepeats : MoasSignature → Type 0
NoRepeats [] = Unit
NoRepeats (x ∷ ms) = (has_origin x ms ≡ false) × NoRepeats ms

abbrev pub IsSignature : MoasSignature → Type 0
IsSignature ms = NoRepeats ms × (length ms ≤ max_unique_origins)

has_origin-append :
    (n x : ℕ) (ms : MoasSignature)
    → has_origin n (ms ++ (x ∷ [])) ≡ (if has_origin n ms then true else (x == n))
has_origin-append n x [] = ground arith
has_origin-append n x (y ∷ ms) = ground (arith, has_origin-append n x ms)

NoRepeats-append :
    (n : ℕ) (ms : MoasSignature)
    → NoRepeats ms
    → has_origin n ms ≡ false
    → NoRepeats (ms ++ (n ∷ []))
NoRepeats-append n [] h e = (refl, tt)
NoRepeats-append n (x ∷ ms) (h, hs) e =
    (ground (arith, has_origin-append x n ms), NoRepeats-append n ms hs (ground arith))

add_origin-IsSignature :
    (n : ℕ) (ms ms' : MoasSignature) → add_origin n ms ≡ ok ms' → IsSignature ms → IsSignature ms'
unfolding add_origin
add_origin-IsSignature n ms ms' e (h, len) = elim (Bool-cases (has_origin n ms)) [
  | inl q ↦ subst IsSignature (ground arith) (h, len)
  | inr q ↦ elim (Bool-cases (ltb (length ms) 128)) [
    | inl room ↦
        let same : ms ++ (n ∷ []) ≡ ms' = ground arith in
        subst IsSignature same
          (NoRepeats-append n ms h q, omega (arith, length-append ms (n ∷ []), below room))
    | inr full ↦ ground arith
  ]
]
  where
    below : ltb (length ms) 128 ≡ true → length ms < 128
    below q = ground arith

module _ {E : Env} (m : MoasEnv E) where
  seg-Ends :
      (seg : Option Seg) (ms : MoasSignature)
      → IsSignature ms
      → Ends {E = E}
          (elim seg [
            | none ↦ fail
            | some other_seg ↦ pure ms
            | some (asn n) ↦ lift (add_origin n ms)
          ])
          IsSignature
  unfolding Ends
  seg-Ends none ms h = λ b s s' e. cc
  seg-Ends (some other_seg) ms h = Ends-pure E ms IsSignature h
  seg-Ends (some (asn n)) ms h =
      Ends-lift E (add_origin n ms) IsSignature (λ ms' e. add_origin-IsSignature n ms ms' e h)

  pub collect_origin-Ends :
      (version : AddrVersion) (ms : MoasSignature)
      → IsSignature ms
      → Ends (collect_origin m version ms) IsSignature
  unfolding collect_origin
  collect_origin-Ends version ms h = Ends-after (run get_peer_id) _ IsSignature (λ peerid.
      Ends-ite (m.full_feed_peer_ids version peerid) _ _ IsSignature
        (λ _. Ends-after (run iter_pfx_peer_get_as_path_store_path_id) _ IsSignature (λ path_id.
          Ends-after (λ s. ok (m.origin_seg s.view.pathstore path_id, s)) _ IsSignature
            (λ seg. seg-Ends seg ms h)))
        (λ _. Ends-pure E ms IsSignature h))
