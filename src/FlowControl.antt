-- ===== src/FlowControl.antt =====
-- pkg/flowcontrol/flowcontrol.go: whether the server offers flow control. The HTTP client and the
-- configuration of client-go are parameters, and so is the name of the header.
use jpl.Base.{Str, codes, ◌≡◌, ◌++◌, [], ◌∷◌, Option, none, some, Bool, true, false, refl}
use jpl.Remote.{Error, Outcome, ok, err, wrap}

abbrev pub well_known_path : Str
well_known_path = codes "/livez/ping"

-- The answers of net/http and client-go; `close_body` has no error where there is no body.
pub record HttpApi (Config Client Url Request Response : Type 0) : Type 0 where
  pub http_client_for : Config → Outcome Client
  pub default_server_url_for : Config → Outcome Url
  pub with_path : Str → Url → Url
  pub new_head_request : Url → Outcome Request
  pub send : Client → Request → Outcome Response
  pub close_body : Response → Option Error
  pub matched_flow_schema_uid : Response → Str
  pub quoted : Str → Str

abbrev is_present : Str → Bool
is_present [] = false
is_present (c ∷ s) = true

module _ {Config Client Url Request Response : Type 0}
    (api : HttpApi Config Client Url Request Response) where
  after_close : Response → Option Error → Outcome Bool
  after_close response (some e) = err (wrap "error closing body: " e)
  after_close response none = ok (is_present (api.matched_flow_schema_uid response))

  after_send : Outcome Response → Outcome Bool
  after_send (err e) = err (record e {
    text = codes "error making " ++ (api.quoted well_known_path ++ (codes " request: " ++ e.text));
  })
  after_send (ok response) = after_close response (api.close_body response)

  after_request : Client → Outcome Request → Outcome Bool
  after_request client (err e) = err (wrap "error building the request: " e)
  after_request client (ok request) = after_send (api.send client request)

  after_url : Client → Outcome Url → Outcome Bool
  after_url client (err e) = err (wrap "error while building the api-server URL: " e)
  after_url client (ok url) =
      after_request client (api.new_head_request (api.with_path well_known_path url))

  after_client : Config → Outcome Client → Outcome Bool
  after_client config (err e) = err (wrap "error while building the client: " e)
  after_client config (ok client) = after_url client (api.default_server_url_for config)

  -- IsEnabled
  pub is_enabled : Config → Outcome Bool
  is_enabled config = after_client config (api.http_client_for config)

  -- A server that was asked and that answered, with or without the header.
  pub record IsAsked (config : Config) (enabled : Bool) : Type 0 where
    pub client : Client
    pub url : Url
    pub request : Request
    pub response : Response
    pub made : api.http_client_for config ≡ ok client
    pub addressed : api.default_server_url_for config ≡ ok url
    pub built : api.new_head_request (api.with_path well_known_path url) ≡ ok request
    pub answered : api.send client request ≡ ok response
    pub told : enabled ≡ is_present (api.matched_flow_schema_uid response)

  module _ (config : Config) (enabled : Bool) where
    after_close-IsAsked :
        (client : Client) (url : Url) (request : Request) (response : Response) (o : Option Error)
        → api.http_client_for config ≡ ok client
        → api.default_server_url_for config ≡ ok url
        → api.new_head_request (api.with_path well_known_path url) ≡ ok request
        → api.send client request ≡ ok response
        → after_close response o ≡ ok enabled
        → IsAsked config enabled
    unfolding after_close
    after_close-IsAsked client url request response (some e) c u r s h = absurd (cc h)
    after_close-IsAsked client url request response none c u r s h = record {
      client = client;
      url = url;
      request = request;
      response = response;
      made = c;
      addressed = u;
      built = r;
      answered = s;
      told = cc h;
    }

    after_send-IsAsked :
        (client : Client) (url : Url) (request : Request) (o : Outcome Response)
        → api.http_client_for config ≡ ok client
        → api.default_server_url_for config ≡ ok url
        → api.new_head_request (api.with_path well_known_path url) ≡ ok request
        → api.send client request ≡ o
        → after_send o ≡ ok enabled
        → IsAsked config enabled
    unfolding after_send
    after_send-IsAsked client url request (err e) c u r s h = absurd (cc h)
    after_send-IsAsked client url request (ok response) c u r s h =
        after_close-IsAsked client url request response _ c u r s h

    after_request-IsAsked :
        (client : Client) (url : Url) (o : Outcome Request)
        → api.http_client_for config ≡ ok client
        → api.default_server_url_for config ≡ ok url
        → api.new_head_request (api.with_path well_known_path url) ≡ o
        → after_request client o ≡ ok enabled
        → IsAsked config enabled
    unfolding after_request
    after_request-IsAsked client url (err e) c u r h = absurd (cc h)
    after_request-IsAsked client url (ok request) c u r h =
        after_send-IsAsked client url request _ c u r refl h

    after_url-IsAsked :
        (client : Client) (o : Outcome Url)
        → api.http_client_for config ≡ ok client
        → api.default_server_url_for config ≡ o
        → after_url client o ≡ ok enabled
        → IsAsked config enabled
    unfolding after_url
    after_url-IsAsked client (err e) c u h = absurd (cc h)
    after_url-IsAsked client (ok url) c u h = after_request-IsAsked client url _ c u refl h

    after_client-IsAsked :
        (o : Outcome Client)
        → api.http_client_for config ≡ o
        → after_client config o ≡ ok enabled
        → IsAsked config enabled
    unfolding after_client
    after_client-IsAsked (err e) c h = absurd (cc h)
    after_client-IsAsked (ok client) c h = after_url-IsAsked client _ c refl h

    -- An answer without an error says whether the header is in the response of a server that was asked at
    -- the well known path.
    pub is_enabled-IsAsked : is_enabled config ≡ ok enabled → IsAsked config enabled
    unfolding is_enabled
    is_enabled-IsAsked h = after_client-IsAsked _ refl h
