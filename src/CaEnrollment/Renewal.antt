-- ===== src/CaEnrollment/Renewal.antt =====
-- When a stored certificate is to be renewed.
use fabric_x_operator.Prelude.{
  ℕ, ◌+◌, ◌*◌, ◌≤◌, ◌<◌, ◌≡◌, sym, Bool, true, false, none, some, List, ◌∷◌, ltb, ltb-cases, arith,
  inl, inr,
}
use mathlib.Core.Path.{subst}
use fabric_x_operator.Go.{GoError, Bytes, Outcome, ok, err, new_error, wrap, lookup}
use fabric_x_operator.Go.Act.{Act, ◌>>=◌, pure, call, check, if_nil}
use fabric_x_operator.Go.Triple.{
  Triple, Triple-pure, Triple-if_nil, Triple-call, Triple-check, Occurs, last,
}
use fabric_x_operator.Kube.{Time, Secret}
use fabric_x_operator.CaEnrollment.Env.{Env, Event, read_clock}

-- `30 * 24 * time.Hour`
abbrev pub renewal_margin : ℕ
renewal_margin = 30 * 24 * 3600

module _ (env : Env) where
  -- `getCertificateExpiry`
  unfoldable pub get_certificate_expiry : Bytes → Outcome Time
  get_certificate_expiry pem = elim (env.pki.decode pem) [
    | none ↦ err (new_error "failed to decode PEM certificate")
    | some (block, rest) ↦ elim (env.pki.parse_certificate block.bytes) [
      | ok cert ↦ ok cert.not_after
      | err e ↦ err (wrap "failed to parse X.509 certificate" e)
    ]
  ]

  -- `needsRenewal`
  unfoldable pub needs_renewal : Secret → Act Event Bool
  unfolding get_certificate_expiry
  needs_renewal secret = if_nil (lookup "cert.pem" secret.contents) (pure true) λ pem.
      check (get_certificate_expiry pem) (λ e. pure true)
        λ expiry. do now ← call env.now read_clock; pure (ltb expiry (now + renewal_margin))

  -- The secret holds a certificate that is valid for 30 days or more from `now` on.
  pub data IsFresh (secret : Secret) (now : Time) : Type 0 where
    fresh :
        (pem : Bytes) (expiry : Time)
        → lookup "cert.pem" secret.contents ≡ some pem
        → get_certificate_expiry pem ≡ ok expiry
        → now + renewal_margin ≤ expiry
        → IsFresh secret now

  -- What the answer of `needsRenewal` is worth at the end of it.
  pub data Answer (secret : Secret) (h : List Event) : Bool → Type 0 where
    kept : (now : Time) → Occurs (read_clock now) h → IsFresh secret now → Answer secret h false
    unreadable : ((now : Time) → ¬ IsFresh secret now) → Answer secret h true
    expiring :
        (now : Time) → Occurs (read_clock now) h → ¬ IsFresh secret now → Answer secret h true

  expiring_at :
      (secret : Secret) (pem : Bytes) (expiry now : Time)
      → lookup "cert.pem" secret.contents ≡ some pem
      → get_certificate_expiry pem ≡ ok expiry
      → expiry < now + renewal_margin
      → ¬ IsFresh secret now
  expiring_at secret pem expiry now e x l (fresh pem' expiry' e' x' l') = grind arith

  Answer-at :
      (secret : Secret) (pem : Bytes) (expiry now : Time) (h : List Event)
      → lookup "cert.pem" secret.contents ≡ some pem
      → get_certificate_expiry pem ≡ ok expiry
      → Occurs (read_clock now) h
      → Answer secret h (ltb expiry (now + renewal_margin))
  Answer-at secret pem expiry now h e x o = elim (ltb-cases expiry (now + renewal_margin)) [
    | inl (b, l) ↦
        subst (Answer secret h) (sym b) (expiring now o (expiring_at secret pem expiry now e x l))
    | inr (b, l) ↦ subst (Answer secret h) (sym b) (kept now o (fresh pem expiry e x l))
  ]

  -- `needsRenewal` answers false only for a certificate that is valid for 30 days or more from the
  -- clock's reading on, and true only where that fails.
  pub needs_renewal-Answer :
      (I : List Event → Type 0) (secret : Secret)
      → ((now : Time) (h : List Event) → I h → I (read_clock now ∷ h))
      → Triple I (needs_renewal secret) (λ due h. I h × Answer secret h due)
  unfolding needs_renewal
  needs_renewal-Answer I secret clock =
      Triple-if_nil (lookup "cert.pem" secret.contents)
        (λ e. Triple-pure _ (λ h p. (p, unreadable (missing e))))
        λ pem e.
          Triple-check (get_certificate_expiry pem)
            (λ x f. Triple-pure _ (λ h p. (p, unreadable (broken pem e x f))))
            λ expiry f.
              Triple-call read_clock (λ now h. I h × Occurs (read_clock now) h)
                (λ h p. (clock _ h p, last))
                λ now. Triple-pure _ (λ h p. (p.0, Answer-at secret pem expiry now h e f p.1))
    where
      missing : lookup "cert.pem" secret.contents ≡ none → (now : Time) → ¬ IsFresh secret now
      missing e now (fresh pem expiry e' x l) = cc

      broken :
          (pem : Bytes)
          → lookup "cert.pem" secret.contents ≡ some pem
          → (x : GoError) → get_certificate_expiry pem ≡ err x
          → (now : Time) → ¬ IsFresh secret now
      broken pem e x f now (fresh pem' expiry e' x' l) = grind arith
