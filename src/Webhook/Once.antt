-- ===== src/Webhook/Once.antt =====
-- What a webhook request changes: nothing unless it is signed, and nothing when it is sent again.
use arcticworks_codepeer.Base.{
  ℕ, ◌≤◌, ◌≡◌, ◌≢◌, refl, ◌∙◌, ap, String, Bool, true, false, inl, inr, List, [], ◌∷◌, ◌++◌, arith,
  Bool-cases, length, str_eq, str_eq_iff, any, leb,
}
use arcticworks_codepeer.Base.Text.{Text}
use arcticworks_codepeer.Domain.{Payload}
use arcticworks_codepeer.Store.{Store}
use arcticworks_codepeer.Store.Repos.{record_delivery}
use arcticworks_codepeer.Webhook.Events.{Json, Server}
use arcticworks_codepeer.Webhook.Signature.{verify_signature}
use arcticworks_codepeer.Webhook.Handlers.{dispatch}
use arcticworks_codepeer.Webhook.Handlers.Effects.{enqueue_all, dispatch-Queues}
use arcticworks_codepeer.Webhook.Receive.{Request, max_body_bytes, recorded, handle_webhook}

abbrev pub is_known : String → Store → Bool
is_known id s = any (λ d. str_eq d id) s.deliveries

pub record_delivery-known :
    (id : String) (s : Store) → is_known id s ≡ true → record_delivery id s ≡ (false, s)
unfolding record_delivery
record_delivery-known id s h = ground arith

record_delivery-new :
    (id : String) (s : Store)
    → is_known id s ≡ false
    → record_delivery id s ≡ (true, record s { deliveries = s.deliveries ++ id ∷ [] })
unfolding record_delivery
record_delivery-new id s h = ground arith

any-last :
    (p : String → Bool) (xs : List String) (x : String) → p x ≡ true → any p (xs ++ x ∷ []) ≡ true
any-last p [] x h = ground arith
any-last p (y ∷ xs) x h = ground (arith, any-last p xs x)

-- The server once the delivery of a request is recorded.
abbrev pub added : Request → Server → Server
added r v = record v {
  store = record v.store { deliveries = v.store.deliveries ++ r.delivery ∷ [] };
}

module _ (hmac : Text → Text → Text) (secret : Text) where
  -- A request that is read and whose signature is that of its body.
  abbrev pub IsAuthentic : Request → Type 0
  IsAuthentic r =
      (length r.body ≤ max_body_bytes) × (verify_signature hmac secret r.body r.signature ≡ true)

  module _ (json : Json) (self : String) (now : ℕ) where
    authentic-recorded :
        (r : Request) (v : Server)
        → IsAuthentic r
        → handle_webhook hmac secret json self now r v
          ≡ recorded (dispatch json self now r.event r.body) v (record_delivery r.delivery v.store)
    unfolding handle_webhook
    authentic-recorded r v (short, signed) = ground arith

    authentic-known :
        (r : Request) (v : Server)
        → IsAuthentic r
        → is_known r.delivery v.store ≡ true
        → handle_webhook hmac secret json self now r v ≡ (200, v)
    authentic-known r v a h =
        rw (authentic-recorded r v a, record_delivery-known r.delivery v.store h) refl

    then_known :
        (r : Request) (v : Server)
        → IsAuthentic r
        → is_known r.delivery (handle_webhook hmac secret json self now r v).1.store ≡ true
    then_known r v a = elim (Bool-cases (is_known r.delivery v.store)) [
      | inl h ↦ rw (authentic-known r v a h) h
      | inr h ↦
          rw (authentic-recorded r v a, record_delivery-new r.delivery v.store h)
            (ap (any (λ d. str_eq d r.delivery))
                (dispatch-Queues json self now r.event r.body (added r v)).0
              ∙ any-last (λ d. str_eq d r.delivery) v.store.deliveries r.delivery
                  (ground (arith, str_eq_iff r.delivery r.delivery)))
    ]

-- After an authentic request, whatever it was answered, a second authentic request with the same
-- delivery is answered 200 and changes nothing, at any later time.
pub handle_webhook_once :
    (hmac : Text → Text → Text) (secret : Text) (json : Json) (self : String) (now later : ℕ)
    (r again : Request) (v : Server)
    → IsAuthentic hmac secret r
    → IsAuthentic hmac secret again
    → again.delivery ≡ r.delivery
    → let v' = (handle_webhook hmac secret json self now r v).1 in
      handle_webhook hmac secret json self later again v' ≡ (200, v')
handle_webhook_once hmac secret json self now later r again v a b same =
    let v' = (handle_webhook hmac secret json self now r v).1 in
    authentic-known hmac secret json self later again v' b
      (rw same (then_known hmac secret json self now r v a))

-- For every request: it queues at most two jobs, each under the kind that fits its payload; and if it
-- changes anything, it was signed with the digest of its body, which was not too long, and its delivery
-- was not recorded before.
pub handle_webhook_effects :
    (hmac : Text → Text → Text) (secret : Text) (json : Json) (self : String) (now : ℕ)
    (r : Request) (v : Server)
    → let v' = (handle_webhook hmac secret json self now r v).1 in
      ((ps : List Payload) × (length ps ≤ 2) × (v'.jobs ≡ enqueue_all json self now ps v.jobs))
      × (v' ≢ v → IsAuthentic hmac secret r × (is_known r.delivery v.store ≡ false))
unfolding handle_webhook
handle_webhook_effects hmac secret json self now r v =
    elim (Bool-cases (leb (length r.body) max_body_bytes)) [
      | inr e ↦ rw e (([], ground arith, refl), λ n. absurd (n refl))
      | inl e ↦ elim (Bool-cases (verify_signature hmac secret r.body r.signature)) [
        | inr f ↦ rw (e, f) (([], ground arith, refl), λ n. absurd (n refl))
        | inl f ↦ elim (Bool-cases (is_known r.delivery v.store)) [
          | inl g ↦
              rw (e, f, record_delivery-known r.delivery v.store g)
                (([], ground arith, refl), λ n. absurd (n refl))
          | inr g ↦
              rw (e, f, record_delivery-new r.delivery v.store g)
                (
                  (dispatch-Queues json self now r.event r.body (added r v)).1,
                  λ n. ((ground arith, refl), g),
                )
        ]
      ]
    ]
