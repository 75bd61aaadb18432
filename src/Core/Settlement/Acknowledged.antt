-- ===== src/Core/Settlement/Acknowledged.antt =====
-- Which messages a one-way binding lets its transport forget.
use benzene_python.Prelude.{
  String, Bool, true, false, ◌≡◌, refl, Option, none, some, [], arith, text_key,
}
use benzene_python.Effect.{
  Fault, error, cancelled, Outcome, returned, raised, Coroutine, after, ◌>>=◌,
}
use benzene_python.Dict.{Dict}
use benzene_python.Json.{Json, null, boolean, integer, negative, real, text, array, object, members}
use benzene_python.Results.Status
use benzene_python.Results.Result.{is_successful}
use benzene_python.Core.Envelope.{
  Response, text_or, stated, rebuilt, successful_from, decode_problem, decode_parsed, decode_body,
  decode_response,
}
use benzene_python.Core.Envelope.Trips.{is_successful-stated}
use benzene_python.Core.Application.{Request}
use benzene_python.Core.Settlement.{
  Settlement, OneWayOutcome, acknowledges, settle_fault, settle_response, settle_decoded,
  dispatch_one_way,
}

module _ (str : Json → String) (repr : String → String) (loads : String → Option Json) where
  -- A result that is decoded from a document, or from another value, is a success if the envelope
  -- stated that.
  is_successful-decode_problem :
      (o : Response) (d : Dict String Json)
      → is_successful (decode_problem str repr loads o d) ≡ successful_from o
  unfolding decode_problem
  is_successful-decode_problem o d = is_successful-stated (successful_from o) _ none _

  is_successful-rebuilt :
      (o : Response) (status : String) (payload : Option Json)
      → is_successful (rebuilt status payload (stated (successful_from o) status))
        ≡ successful_from o
  is_successful-rebuilt o status payload =
      is_successful-stated (successful_from o) status payload []

  is_successful-decode_parsed :
      (o : Response) (v : Json)
      → is_successful (decode_parsed str repr loads o v) ≡ successful_from o
  unfolding decode_parsed
  is_successful-decode_parsed o null = is_successful-rebuilt o _ _
  is_successful-decode_parsed o (boolean b) = is_successful-rebuilt o _ _
  is_successful-decode_parsed o (integer n) = is_successful-rebuilt o _ _
  is_successful-decode_parsed o (negative n) = is_successful-rebuilt o _ _
  is_successful-decode_parsed o (real z s) = is_successful-rebuilt o _ _
  is_successful-decode_parsed o (text s) = is_successful-rebuilt o _ _
  is_successful-decode_parsed o (array vs) = is_successful-rebuilt o _ _
  is_successful-decode_parsed o (object ms) = ground (
    arith,
    is_successful-decode_problem o (members ms),
    is_successful-rebuilt o (text_or o.status_code Status.unexpected_error) (some (object ms)),
  )

  body_stated :
      (o : Response) (b : String) (v : Option Json)
      → is_successful (decode_body str repr loads o b v) ≡ true
      → successful_from o ≡ true
  unfolding decode_body
  body_stated o b none h =
      ground (arith, is_successful-rebuilt o (text_or o.status_code Status.unexpected_error) none)
  body_stated o b (some v) h = ground (arith, is_successful-decode_parsed o v)

  decode_stated :
      (o : Response)
      → is_successful (decode_response str repr loads o) ≡ true
      → successful_from o ≡ true
  unfolding decode_response
  decode_stated o h = ground (
    arith,
    is_successful-rebuilt o (text_or o.status_code Status.unexpected_error) none,
    body_stated o (text_or o.body "") (loads (text_or o.body "")),
  )

module _ {W : Type 0} (str : Json → String) (repr : String → String) (loads : String → Option Json)
    (settlement : Settlement) where
  -- From what decoding a message and running it come to: an exception is passed on, and a message
  -- that is acknowledged has a response that states a success.
  abbrev pub Earned : Outcome Response × W → Outcome OneWayOutcome × W → Type 0
  Earned (raised x, w) out = out ≡ (raised x, w)
  Earned (returned response, w) out =
      (o : OneWayOutcome) × (out ≡ (returned o, w))
      × (o.response ≡ some response)
      × (o.acknowledge ≡ true → successful_from response ≡ true)

  Earned-settle_fault :
      (topic : String) (x : Fault) (w : W)
      → settlement.at_most_once ≡ false
      → settle_fault str repr loads settlement topic x w ≡ (raised x, w)
  unfolding settle_fault
  Earned-settle_fault topic (error kind message) w least = rw least refl
  Earned-settle_fault topic cancelled w least = refl

  Earned-settle_response :
      (topic : String) (o : Outcome Response × W)
      → settlement.at_most_once ≡ false
      → Earned o (settle_response str repr loads settlement topic o)
  unfolding settle_response acknowledges
  Earned-settle_response topic (raised x, w) least = Earned-settle_fault topic x w least
  Earned-settle_response topic (returned response, w) least =
      (_, refl, refl, λ earned. decode_stated str repr loads response (ground arith))

  Earned-settle_decoded :
      (application : Request → Bool → Coroutine W Response) (o : Outcome Request × W)
      → settlement.at_most_once ≡ false
      → Earned
          (after o (λ request. application request settlement.ignore_unmatched_topics))
          (settle_decoded str repr loads settlement application o)
  unfolding settle_decoded
  Earned-settle_decoded application (raised x, w) least = Earned-settle_fault "" x w least
  Earned-settle_decoded application (returned request, w) least =
      Earned-settle_response (text_or request.topic "")
        (application request settlement.ignore_unmatched_topics w) least

  -- Under the default settlement no failed message is lost: where the decoder and the application
  -- come to a response, that is recorded and the message is acknowledged only if the response
  -- states a success; where one of them raises, that very exception goes on to the transport.
  pub dispatch_at_least_once :
      (application : Request → Bool → Coroutine W Response) (decode : Coroutine W Request) (w : W)
      → settlement.at_most_once ≡ false
      → Earned
          ((decode >>= λ request. application request settlement.ignore_unmatched_topics) w)
          (dispatch_one_way str repr loads settlement application decode w)
  unfolding dispatch_one_way
  dispatch_at_least_once application decode w least =
      Earned-settle_decoded application (decode w) least

  -- The message is acknowledged, or the task was cancelled.
  abbrev pub Dropped : Outcome OneWayOutcome × W → Type 0
  Dropped (raised x, w) = x ≡ cancelled
  Dropped (returned o, w) = o.acknowledge ≡ true

  Dropped-settle_fault :
      (topic : String) (x : Fault) (w : W)
      → settlement.at_most_once ≡ true
      → Dropped (settle_fault str repr loads settlement topic x w)
  unfolding settle_fault
  Dropped-settle_fault topic (error kind message) w most = rw most refl
  Dropped-settle_fault topic cancelled w most = refl

  Dropped-settle_response :
      (topic : String) (o : Outcome Response × W)
      → settlement.at_most_once ≡ true
      → Dropped (settle_response str repr loads settlement topic o)
  unfolding settle_response acknowledges
  Dropped-settle_response topic (raised x, w) most = Dropped-settle_fault topic x w most
  Dropped-settle_response topic (returned response, w) most = ground arith

  Dropped-settle_decoded :
      (application : Request → Bool → Coroutine W Response) (o : Outcome Request × W)
      → settlement.at_most_once ≡ true
      → Dropped (settle_decoded str repr loads settlement application o)
  unfolding settle_decoded
  Dropped-settle_decoded application (raised x, w) most = Dropped-settle_fault "" x w most
  Dropped-settle_decoded application (returned request, w) most =
      Dropped-settle_response (text_or request.topic "")
        (application request settlement.ignore_unmatched_topics w) most

  -- Under at-most-once settlement every message is acknowledged, whatever comes of decoding and
  -- running it, so the transport never delivers it again; no exception gets out, and only a
  -- cancellation does.
  pub dispatch_at_most_once :
      (application : Request → Bool → Coroutine W Response) (decode : Coroutine W Request) (w : W)
      → settlement.at_most_once ≡ true
      → Dropped (dispatch_one_way str repr loads settlement application decode w)
  unfolding dispatch_one_way
  dispatch_at_most_once application decode w most =
      Dropped-settle_decoded application (decode w) most
