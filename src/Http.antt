-- ===== src/Http.antt =====
-- The requests and responses of net/http as the program uses them, and internal/handler/upstream: the
-- client of an upstream registry.
use dependency_guardian.Prelude.{
  ℕ, String, Bool, Option, none, some, List, [], ◌∷◌, if◌then◌else◌, ◌==◌,
}
use Prim.Native.String

-- A header is a list of names and values: `Get` takes the first value of a name, or the empty text.
abbrev pub Header : Type 0
Header = List (String × String)

unfoldable pub get : String → Header → String
get k [] = ""
get k ((j, v) ∷ h) = if j == k then v else get k h

pub record Request : Type 0 where
  pub method : String
  pub path : String
  pub query : Header
  pub header : Header
  pub body : Option String

-- A request to an upstream.
pub record Outgoing : Type 0 where
  pub method : String
  pub url : String
  pub header : Header
  pub body : Option String

-- The answer of an upstream: what could be read of the body, and whether reading it failed.
pub record Incoming : Type 0 where
  pub status_code : ℕ
  pub header : Header
  pub body : String
  pub body_failed : Bool

-- The network: does a request with the method and the URL get made, and what an upstream answers;
-- `none` is a request that fails.
pub record Network : Type 0 where
  pub makes_request : String → String → Bool
  pub send : Outgoing → Option Incoming

-- What a handler writes, or `crash` for a panic, which the server turns into a closed connection.
pub data Reply : Type 0 where
  respond : (status : ℕ) → Header → (body : String) → Reply
  redirect : (location : String) → Reply
  crash : Reply

infixr 5 ◌^^◌
-- Go's + on texts.
abbrev pub ◌^^◌ : String → String → String
a ^^ b = Prim.Native.String.◌++◌ a b

-- http.Error(w, message, code)
abbrev pub error : String → ℕ → Reply
error message code =
    respond code
      (("Content-Type", "text/plain; charset=utf-8") ∷ ("X-Content-Type-Options", "nosniff") ∷ [])
      (message ^^ "\n")

-- Client, with the base URL of an upstream.
pub record Client : Type 0 where
  pub base_url : String

-- NewClient
unfoldable pub new_client : String → Client
new_client base_url = record { base_url = base_url }

module _ (network : Network) where
  abbrev fetched : Option Incoming → Option (String × ℕ)
  fetched none = none
  fetched (some r) = if r.body_failed then none else some (r.body, r.status_code)

  -- Client.Fetch: the body and the status code.
  unfoldable pub fetch : Client → String → Option (String × ℕ)
  fetch c path =
      if network.makes_request "GET" (c.base_url ^^ path)
      then fetched (
          network.send (record {
            method = "GET";
            url = c.base_url ^^ path;
            header = ("Accept", "application/json") ∷ [];
            body = none;
          }))
      else none

  abbrev copied : Option Incoming → Reply
  copied none = error "upstream request failed" 502
  copied (some r) = respond r.status_code r.header r.body

  -- The headers that `Passthrough` copies.
  unfoldable pub copy_headers : List String → Header → Header
  unfolding get
  copy_headers [] header = []
  copy_headers (h ∷ hs) header =
      let rest = copy_headers hs header in
      if get h header == "" then rest else (h, get h header) ∷ rest

  -- Client.Passthrough
  unfoldable pub passthrough : Client → Request → Reply
  unfolding copy_headers
  passthrough c r =
      if network.makes_request r.method (c.base_url ^^ r.path)
      then copied (
          network.send (record {
            method = r.method;
            url = c.base_url ^^ r.path;
            header = copy_headers ("Accept" ∷ "Accept-Encoding" ∷ "Authorization" ∷ []) r.header;
            body = r.body;
          }))
      else error "failed to create upstream request" 500
