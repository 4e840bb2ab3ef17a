-- ===== src/Http.antt =====
-- Requests, responses and handlers of the HTTP API (internal/httpapi), as far as its middlewares see
-- them, and what they use of Go's `net/http`.
pub mod Headers
pub mod Auth
pub mod Cors
pub mod Server
pub mod Documents
use statehouse.Prelude.{ℕ, List, [], ◌∷◌, ◌++◌, Str, str, str_eq, if◌then◌else◌}

-- A header that is absent is the empty text, as `Header.Get` returns it.
pub record Request : Type 0 where
  pub method : Str
  pub path : Str
  pub origin : Str
  pub authorization : Str

abbrev pub Headers : Type 0
Headers = List (Str × Str)

pub record Reply : Type 0 where
  pub status : ℕ
  pub headers : Headers
  pub body : Str

-- From the request, the headers set so far and the state that handlers share.
abbrev pub Handler : Type 0 → Type 0
Handler S = Request → Headers → S → Reply × S

unfoldable pub delete : Str → Headers → Headers
delete k [] = []
delete k (h ∷ hs) = let rest = delete k hs in if str_eq h.0 k then rest else h ∷ rest

-- `Header.Get`.
unfoldable pub get : Str → Headers → Str
get k [] = []
get k (h ∷ hs) = let rest = get k hs in if str_eq h.0 k then h.1 else rest

-- `Header.Add` and `Header.Set`.
unfoldable pub add : Str → Str → Headers → Headers
add k v hs = hs ++ ((k, v) ∷ [])

unfoldable pub set : Str → Str → Headers → Headers
unfolding delete add
set k v hs = add k v (delete k hs)

-- `http.Error`.
unfoldable pub error_reply : ℕ → Str → Headers → Reply
unfolding delete set
error_reply status body hs = record {
  status = status;
  headers = set (str "X-Content-Type-Options") (str "nosniff") (
      set (str "Content-Type") (str "text/plain; charset=utf-8")
        (delete (str "Content-Length") hs));
  body = body ++ (10 ∷ []);
}
