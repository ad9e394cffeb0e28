-- ===== src/Iso20022/Losses.antt =====
-- Lemmas on the loss reports of app/iso20022.py.
use atlas_pay.Prelude.{
  ok, >>=-eq-ok, Text, Bytes, Unicode, ◌≡◌, refl, sym, ap, ◌∙◌, Bool, true, false, Option, none,
  some, List, [], ◌∷◌, arith,
}
use atlas_pay.Prelude.Dict.{is_some}
use atlas_pay.Canonical.{
  NetworkCorrelation, CardPaymentInstrument, AuthorizationRequest, is_stan, make_correlation,
  is_pan, make_instrument, make_authorization, IsCanonical,
}
use atlas_pay.Iso20022.{
  MappingLossCode, icc_data_not_projected, stan_is_network_specific, Iso20022CardAuthorization,
  make_card_authorization, Iso20022Projection, losses_of, authorization_to_iso20022, request_of,
  authorization_from_iso20022,
}

-- The request without its chip data.
abbrev pub without_icc : AuthorizationRequest → AuthorizationRequest
without_icc r = record r { instrument = record { pan = r.instrument.pan; icc_data = none } }

abbrev pub reports_icc : List MappingLossCode → Bool
reports_icc [] = false
reports_icc (icc_data_not_projected ∷ losses) = true
reports_icc (stan_is_network_specific ∷ losses) = reports_icc losses

abbrev pub reports_stan : List MappingLossCode → Bool
reports_stan [] = false
reports_stan (stan_is_network_specific ∷ losses) = true
reports_stan (icc_data_not_projected ∷ losses) = reports_stan losses

-- What the projection keeps of a request, with a STAN of the network that reads it.
abbrev pub kept_of : AuthorizationRequest → Text → AuthorizationRequest
kept_of r stan = record (without_icc r) {
  correlation = record { stan = stan; rrn = r.correlation.rrn };
}

card_same :
    (u : Unicode) (a b : Iso20022CardAuthorization) → make_card_authorization u a ≡ ok b → b ≡ a
unfolding make_card_authorization
card_same u a b h = ground arith

pan_accepted :
    (i : CardPaymentInstrument) → make_instrument i.pan i.icc_data ≡ ok i → is_pan i.pan ≡ true
unfolding make_instrument
pan_accepted i h = ground arith

bare_instrument :
    (pan : Text)
    → is_pan pan ≡ true
    → make_instrument pan none ≡ ok (record { pan = pan; icc_data = none })
unfolding make_instrument
bare_instrument pan h = rw h refl

bare_request :
    (r : AuthorizationRequest) (stan : Text)
    → make_authorization r ≡ ok r
    → make_authorization (kept_of r stan) ≡ ok (kept_of r stan)
unfolding make_authorization
bare_request r stan h = ground arith

-- Another STAN with the same RRN is a correlation too.
other_stan :
    (c : NetworkCorrelation) (stan : Text)
    → make_correlation c.stan c.rrn ≡ ok c
    → is_stan stan ≡ true
    → make_correlation stan c.rrn ≡ ok (record { stan = stan; rrn = c.rrn })
unfolding make_correlation is_stan
other_stan c stan h given = ground (arith, h, given)

stan_reported : (icc : Option Bytes) → reports_stan (losses_of icc) ≡ true
stan_reported none = refl
stan_reported (some b) = refl

reported : (icc : Option Bytes) → reports_icc (losses_of icc) ≡ is_some icc
reported none = refl
reported (some b) = refl

-- A canonical request that was projected is read back, under any well-formed STAN and with its RRN, as
-- the same request with that STAN and without the chip data: these two are all that is lost.
-- The projection reports the loss of the STAN always, and that of chip data exactly where there was
-- some.
pub from_iso20022-to_iso20022 :
    (u : Unicode) (r : AuthorizationRequest) (message_id stan : Text) (p : Iso20022Projection)
    → IsCanonical r
    → is_stan stan ≡ true
    → authorization_to_iso20022 u r message_id ≡ ok p
    → (authorization_from_iso20022 p.authorization stan ≡ ok (kept_of r stan))
      × (reports_stan p.losses ≡ true)
      × (reports_icc p.losses ≡ is_some r.instrument.icc_data)
unfolding authorization_to_iso20022 authorization_from_iso20022 request_of
from_iso20022-to_iso20022 u r message_id stan p c given h =
    let sent : Iso20022CardAuthorization = record {
      message_id = message_id;
      transaction_id = r.correlation.rrn;
      amount_minor = r.amount_minor;
      currency = r.currency;
      merchant_id = r.merchant_id;
      terminal_id = r.terminal_id;
      pan = r.instrument.pan;
    } in
    let (a, made, shown) = >>=-eq-ok (make_card_authorization u sent) _ h in
    let same : p ≡ record { authorization = sent; losses = losses_of r.instrument.icc_data } =
      sym (ground (arith, shown))
      ∙ ap
          (λ (x : Iso20022CardAuthorization). record {
            authorization = x;
            losses = losses_of r.instrument.icc_data;
          })
          (card_same u sent a made) in
    rw same (
      rw
          (
            other_stan r.correlation stan c.correlation_ok given,
            bare_instrument r.instrument.pan (pan_accepted r.instrument c.instrument_ok),
          )
          (rw (bare_request r stan c.request_ok) refl),
      stan_reported r.instrument.icc_data,
      reported r.instrument.icc_data,
    )
