-- ===== src/Chan/Dispatch.antt =====
-- What comes of a request: at the server, and from the client through the server.
use v_m_io.Common.{
  ℕ, ap, ◌≤◌, ◌≡◌, ◌≢◌, refl, ◌∙◌, true, false, Option, none, some, [], ◌∷◌, length, any, ltb, ◌==◌,
  ==_iff, arith, Bool-cases, inl, inr, ◌⊎◌,
}
use v_m_io.Common.Bytes.{Bytes}
use v_m_io.Io.{Result, ok, err, request_failed}
use v_m_io.Chan.Requests.{
  Request, Response, HeaderValue, text, opaque, Body, collected, over_limit, malformed, ChanHandler,
  SrvInner, resp_text, max_body, declared_too_large, route, get_handler, lookup, answer, dispatch,
  receive, authorize, authenticate, handle_request,
}
use v_m_io.Chan.Client.{is_success, Net, request, is_path_segment, receive_response, posted}

module _ {S : Type 0} (inner : SrvInner S) where
  -- The request reached a handler: its authorization was accepted, its path names the handler, and
  -- its body was read. The response and the state are the handler's.
  pub record Handled (req : Request) (s : S) (r : Response × S) : Type 0 where
    pub value : Bytes
    pub header : req.authorization ≡ some (text value)
    pub accepted : inner.auth_cb value s ≡ ok 200
    pub name : Bytes
    pub routed : route req.path ≡ some name
    pub handler : ChanHandler S
    pub found : get_handler name inner.handlers ≡ some handler
    pub declared : declared_too_large req.content_length ≡ false
    pub content : Bytes
    pub read : req.body ≡ collected content
    pub result : r ≡ answer inner (handler.handle content s)

  -- The authorization callback gave a code of its own for the header, which is not 200.
  pub record Denied (req : Request) (s : S) (status : ℕ) : Type 0 where
    pub value : Bytes
    pub header : req.authorization ≡ some (text value)
    pub denied : inner.auth_cb value s ≡ ok status
    pub not_accepted : status ≢ 200

  -- The request was turned away, by a text, and nothing has changed. The status is none that the
  -- client takes for a success, or it is the one that the authorization callback gave.
  pub record Refused (req : Request) (s : S) (r : Response × S) : Type 0 where
    pub no_success : (is_success r.0.status ≡ false) ⊎ Denied req s r.0.status
    pub is_text : r.0.is_text ≡ true
    pub unchanged : r.1 ≡ s

  abbrev Outcome : Request → S → Response × S → Type 0
  Outcome req s r = Handled req s r ⊎ Refused req s r

  refused :
      (req : Request) (s : S) (code : ℕ) (body : Bytes)
      → (is_success code ≡ false) ⊎ Denied req s code
      → Refused req s (resp_text code body, s)
  refused req s code body h = record { no_success = h; is_text = refl; unchanged = refl }

  module _ (req : Request) (s : S) (value : Bytes)
      (header : req.authorization ≡ some (text value)) where
    dispatch-Outcome :
        (name : Bytes) (handler : ChanHandler S) (b : Body)
        → inner.auth_cb value s ≡ ok 200
        → route req.path ≡ some name
        → get_handler name inner.handlers ≡ some handler
        → declared_too_large req.content_length ≡ false
        → req.body ≡ b
        → Outcome req s (dispatch inner handler b s)
    dispatch-Outcome name handler (collected content) ha hr hf hd hb = inl (record {
      value = value;
      header = header;
      accepted = ha;
      name = name;
      routed = hr;
      handler = handler;
      found = hf;
      declared = hd;
      content = content;
      read = hb;
      result = refl;
    })
    dispatch-Outcome name handler over_limit ha hr hf hd hb = inr (refused req s 413 _ (inl refl))
    dispatch-Outcome name handler malformed ha hr hf hd hb = inr (refused req s 400 _ (inl refl))

    receive-Outcome :
        (o : Option Bytes) (l : Option (ChanHandler S))
        → inner.auth_cb value s ≡ ok 200
        → route req.path ≡ o
        → lookup inner.handlers o ≡ l
        → Outcome req s (receive inner l req s)
    receive-Outcome none none ha hr hl = inr (refused req s 404 _ (inl refl))
    receive-Outcome none (some handler) ha hr hl = cc
    receive-Outcome (some name) none ha hr hl = inr (refused req s 404 _ (inl refl))
    receive-Outcome (some name) (some handler) ha hr hl =
        elim (Bool-cases (declared_too_large req.content_length)) [
          | inl large ↦ rw large (inr (refused req s 413 _ (inl refl)))
          | inr fits ↦ rw fits (dispatch-Outcome name handler req.body ha hr hl fits refl)
        ]

    authorize-Outcome :
        (a : Result ℕ) → inner.auth_cb value s ≡ a → Outcome req s (authorize inner a req s)
    authorize-Outcome (err e) ha = inr (refused req s 500 _ (inl refl))
    authorize-Outcome (ok code) ha = elim (Bool-cases (code == 200)) [
      | inl accepted ↦
          let c : code ≡ 200 = (==_iff code 200).0 accepted in
          rw accepted (receive-Outcome (route req.path) _ (ha ∙ ap ok c) refl refl)
      | inr other ↦ rw other (
          inr (
            refused req s code _ (
              inr (record {
                value = value;
                header = header;
                denied = ha;
                not_accepted = λ e. ground arith;
              }))))
    ]

  authenticate-Outcome :
      (req : Request) (s : S) (o : Option HeaderValue)
      → req.authorization ≡ o
      → Outcome req s (authenticate inner o req s)
  authenticate-Outcome req s none h = inr (refused req s 401 _ (inl refl))
  authenticate-Outcome req s (some opaque) h = inr (refused req s 401 _ (inl refl))
  authenticate-Outcome req s (some (text value)) h =
      authorize-Outcome req s value h (inner.auth_cb value s) refl

  -- A request reaches a handler, having passed every check, and its response and effect are the
  -- handler's; or it is refused with a text and changes nothing, and then the status is none that
  -- the client takes for a success, or it is the code, other than 200, that the authorization
  -- callback gave for the header.
  pub handle_request-Outcome :
      (req : Request) (s : S)
      → Handled req s (handle_request inner req s) ⊎ Refused req s (handle_request inner req s)
  unfolding handle_request
  handle_request-Outcome req s = authenticate-Outcome req s req.authorization refl

  -- The server's answer to what the client posts.
  unfoldable pub Delivers : Net S → Type 0
  Delivers net =
      (auth_header path body : Bytes) (s : S)
      → net auth_header path body s ≡ (
        ok (handle_request inner (posted auth_header path body) s).0,
        (handle_request inner (posted auth_header path body) s).1,
      )

  -- What the client makes of what a handler gives.
  abbrev pub relayed : Result Bytes × S → Result Bytes × S
  relayed (ok out, s) = (ok out, s)
  relayed (err e, s) = (err (request_failed 500 (inner.to_string e)), s)

  relay :
      (x : Result Bytes × S)
      → receive_response (ok (answer inner x).0, (answer inner x).1) ≡ relayed x
  relay (ok out, s) = refl
  relay (err e, s) = refl

  -- Over a network that delivers, a request of the client whose authorization is accepted, whose
  -- name is that of a handler and whose body is within the limit gives what the handler gives; an
  -- error arrives with its text.
  pub request-handle_request :
      (net : Net S)
      → Delivers net
      → (auth_header name body : Bytes) (s : S) (handler : ChanHandler S)
      → is_path_segment name ≡ true
      → inner.auth_cb auth_header s ≡ ok 200
      → get_handler name inner.handlers ≡ some handler
      → length body ≤ max_body
      → request net auth_header name body s ≡ relayed (handler.handle body s)
  unfolding request handle_request route Delivers
  request-handle_request net net_works auth_header [] body s handler hn ha hf hl = cc
  request-handle_request net net_works auth_header (c ∷ name) body s handler hn ha hf hl =
      let free : any (λ d. d == b'/') (c ∷ name) ≡ false = ground arith in
      let small : ltb max_body (length body) ≡ false = ground arith in
      let path = b'/' ∷ c ∷ name in
      let reached : handle_request inner (posted auth_header path body) s
          ≡ answer inner (handler.handle body s) =
        rw (ha, free, hf, small) in
      rw (free, net_works auth_header path body s, reached) (relay (handler.handle body s))
