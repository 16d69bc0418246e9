-- ===== src/Provision/Stepped.antt =====
-- What `step_hub_keys` keeps of the keys of the hub.
use edgekit.Base.{
  refl, ap, Triple-bind, Triple-pure, true, arith, Triple-if, Keeps-within, ◌&&◌, not, false,
  Triple-gets-bind, Keeps, ◌≡◌, str_eq, Triple, Exec, Bool,
}
use edgekit.Provision.Steps.{
  generated, derived, reused, on_host, generate_key, derive_key, hub_keys_from, Hub, step_hub_keys,
}
use edgekit.System.Wireguard.{KeyPair}
use edgekit.System.Shell.{Host}

-- A private key that was there is still there, and a whole pair is as it was.
pub record Preserved (before after : KeyPair) : Type 0 where
  pub private_key : str_eq before.private_key "" ≡ false → after.private_key ≡ before.private_key
  pub pair :
      str_eq before.private_key "" ≡ false → str_eq before.public_key "" ≡ false → after ≡ before

half_empty : (a b : Bool) → not a && b ≡ true → b ≡ false → ⊥
half_empty a b h g = ground arith

not_empty : (a b : Bool) → not a && not b ≡ false → not a && b ≡ false → a ≡ false → ⊥
not_empty a b h g e = ground arith

module _ (H : Host) where
  abbrev Keyed : KeyPair → Hub H → Type 0
  Keyed k s = s.keys ≡ k

  -- The programs of the host do not touch the configuration.
  on_host-Keeps : {A : Type 0} (k : KeyPair) (m : Exec H.State A) → Keeps (Keyed k) (on_host H m)
  on_host-Keeps k m = Keeps-within _ _ _ m (λ t s h. h)

  hub_keys_from-Preserved :
      (k : KeyPair)
      → Triple (Keyed k) (hub_keys_from H k) (λ r s. Preserved k s.keys) (λ e. Keyed k)
  unfolding hub_keys_from derive_key generate_key
  hub_keys_from-Preserved k =
      Triple-if (not (str_eq k.private_key "") && not (str_eq k.public_key "")) _ _
        (λ both.
          Triple-pure reused
            (λ s h. record { private_key = λ e. ap (λ x. x.private_key) h; pair = λ e g. h }))
        (λ part.
          Triple-if (not (str_eq k.private_key "") && str_eq k.public_key "") _ _
            (λ half.
              Triple-bind (λ p. Keyed k) _ _ (on_host-Keeps k _)
                (λ public_key.
                  Triple-bind (λ u s. Preserved k s.keys) _ _
                    (record {
                      at = λ s h. record {
                        private_key = λ e. refl;
                        pair = λ e g. elim (half_empty _ _ half g) [ ];
                      };
                    })
                    (λ u. Triple-pure derived (λ s h. h))))
            (λ empty.
              Triple-bind (λ p. Keyed k) _ _ (on_host-Keeps k _)
                (λ keypair.
                  Triple-bind (λ u s. Preserved k s.keys) _ _
                    (record {
                      at = λ s h. record {
                        private_key = λ e. elim (not_empty _ _ part empty e) [ ];
                        pair = λ e g. elim (not_empty _ _ part empty e) [ ];
                      };
                    })
                    (λ u. Triple-pure generated (λ s h. h)))))

  -- Whatever `wg` prints, `step_hub_keys` keeps a private key that is configured, and the public key
  -- beside it; if it raises, both keys are as they were.
  pub step_hub_keys-Preserved :
      (k : KeyPair)
      → Triple (λ s. s.keys ≡ k) (step_hub_keys H) (λ r s. Preserved k s.keys) (λ e s. s.keys ≡ k)
  unfolding step_hub_keys
  step_hub_keys-Preserved k =
      Triple-gets-bind (λ s. s.keys) _ k (λ s h. h) (hub_keys_from-Preserved k)
