-- ===== src/Mail/Delivery.antt =====
-- When a link counts as sent.
use flight_circle_search.Base.{
  ◌≤◌, ◌<◌, ◌≡◌, ◌∙◌, sym, ◌↔◌, none, [], ◌∷◌, ◌++◌, Bytes, ok, arith, Result-cases, Option-cases,
  inl, inr, length, codes, ap,
}
use flight_circle_search.Config.{Config}
use flight_circle_search.Mail.{
  Calls, Reply, ResendSender, Outbox, default_from, resend_api_url, new_resend_sender, new_sender,
  mail_of, request_of, send_magic_link, resend, ResendRequest, HttpRequest, replied,
}

accepting : (reply : Reply) → 200 ≤ reply.status → reply.status < 300 → replied (ok reply) ≡ ok tt
accepting reply low high = ground arith

module _ (calls : Calls) (cfg : Config) (to link : Bytes) where
  abbrev pub sender : ResendSender
  sender = record { api_key = cfg.resend_api_key; from = default_from; api_url = resend_api_url }

  -- The mail, and the request that carries it.
  abbrev pub mail : ResendRequest
  mail = record {
    from = codes "onboarding@resend.dev";
    to = to;
    subject = codes "Your sign-in link";
    html =
        codes "<p>Click <a href="
        ++ 34 ∷ link
        ++ 34 ∷ codes ">here</a> to sign in. This link expires in 15 minutes.</p>";
  }

  abbrev pub posting_of : Bytes → HttpRequest
  posting_of payload = record {
    method = codes "POST";
    url = codes "https://api.resend.com/emails";
    headers =
        (codes "Authorization", codes "Bearer " ++ cfg.resend_api_key)
        ∷ (codes "Content-Type", codes "application/json")
        ∷ [];
    body = payload;
  }

  -- The mail could be encoded, the API was asked with the key, and it has answered with a status from 200 to 299.
  pub record IsAccepted (box : Outbox) (after : Outbox) : Type 0 where
    pub payload : Bytes
    pub reply : Reply
    pub encoded : calls.marshal (mail) ≡ ok payload
    pub well_formed : calls.check_url (codes "https://api.resend.com/emails") ≡ none
    pub answered : calls.answer (posting_of payload) ≡ ok reply
    pub low : 200 ≤ reply.status
    pub high : reply.status < 300
    pub posted : after ≡ record box { posted = box.posted ++ posting_of payload ∷ [] }

  -- The same with the mail and the request of the code: the mail could be encoded, the API was asked with the key, and it has answered with a status from 200 to 299.
  record IsPosted (box : Outbox) (after : Outbox) : Type 0 where
    pub payload : Bytes
    pub reply : Reply
    pub encoded : calls.marshal (mail) ≡ ok payload
    pub well_formed : calls.check_url resend_api_url ≡ none
    pub answered : calls.answer (request_of sender payload) ≡ ok reply
    pub low : 200 ≤ reply.status
    pub high : reply.status < 300
    pub posted : after ≡ record box { posted = box.posted ++ request_of sender payload ∷ [] }

  resending :
      (box : Outbox)
      → 0 < length cfg.resend_api_key
      → send_magic_link calls (new_sender cfg) to link box
        ≡ send_magic_link calls (resend sender) to link box
  unfolding new_sender new_resend_sender
  resending box h = ground arith

  IsPosted-inv :
      (box after : Outbox)
      → send_magic_link calls (resend sender) to link box ≡ (ok tt, after)
      → IsPosted box after
  unfolding send_magic_link
  IsPosted-inv box after h = elim (Result-cases (calls.marshal (mail_of sender to link))) [
    | inr (e, q) ↦ ground (arith, q)
    | inl (payload, q) ↦ elim (Option-cases (calls.check_url resend_api_url)) [
      | inr (e, k) ↦ ground (arith, q, k)
      | inl k ↦ elim (Result-cases (calls.answer (request_of sender payload))) [
        | inr (e, i) ↦ ground (arith, q, k, i)
        | inl (reply, i) ↦ record {
          payload = payload;
          reply = reply;
          encoded = q;
          well_formed = k;
          answered = i;
          low = ground (arith, q, k, i, h);
          high = ground (arith, q, k, i, h);
          posted = ground (arith, q, k, i, h);
        }
      ]
    ]
  ]

  IsPosted-sent :
      (box after : Outbox)
      → IsPosted box after
      → send_magic_link calls (resend sender) to link box ≡ (ok tt, after)
  unfolding send_magic_link
  IsPosted-sent box after a =
      rw (a.encoded, a.well_formed, a.answered, a.posted)
        (ap (λ r. (r, record box { posted = box.posted ++ request_of sender a.payload ∷ [] }))
          (accepting a.reply a.low a.high))

  IsAccepted-of : {box after : Outbox} → IsPosted box after → IsAccepted box after
  IsAccepted-of p = record {
    payload = p.payload;
    reply = p.reply;
    encoded = p.encoded;
    well_formed = p.well_formed;
    answered = p.answered;
    low = p.low;
    high = p.high;
    posted = p.posted;
  }

  IsPosted-of : {box after : Outbox} → IsAccepted box after → IsPosted box after
  IsPosted-of a = record {
    payload = a.payload;
    reply = a.reply;
    encoded = a.encoded;
    well_formed = a.well_formed;
    answered = a.answered;
    low = a.low;
    high = a.high;
    posted = a.posted;
  }

  -- With a key for Resend, `SendMagicLink` succeeds exactly if the mail could be encoded and the API answered the one request that was posted for it, with that key and the link in its mail, and did so with a status from 200 to 299; nothing else was posted or printed then.
  pub send_magic_link_iff :
      (box after : Outbox)
      → 0 < length cfg.resend_api_key
      → (send_magic_link calls (new_sender cfg) to link box ≡ (ok tt, after)) ↔ IsAccepted box after
  send_magic_link_iff box after key =
      let same = resending box key in
      (
        λ h. IsAccepted-of (IsPosted-inv box after (sym same ∙ h)),
        λ a. same ∙ IsPosted-sent box after (IsPosted-of a),
      )
