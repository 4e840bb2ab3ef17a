-- ===== src/Http/Headers.antt =====
-- Laws of the headers of a response.
use statehouse.Prelude.{
  false, ◌≡◌, refl, ◌∙◌, arith, [], ◌∷◌, Str, str_eq, str_eq_refl, str_eq→eq, ℕ, str,
}
use statehouse.Http.{Headers, get, delete, add, set, error_reply}

get-add_other : (k l v : Str) (hs : Headers) → str_eq l k ≡ false → get k (add l v hs) ≡ get k hs
unfolding get add
get-add_other k l v [] h = ground arith
get-add_other k l v (e ∷ hs) h = ground (arith, get-add_other k l v hs)

pub get-delete_other :
    (k l : Str) (hs : Headers) → str_eq l k ≡ false → get k (delete l hs) ≡ get k hs
unfolding get delete
get-delete_other k l [] h = refl
get-delete_other k l (e ∷ hs) h =
    ground (arith, get-delete_other k l hs, str_eq→eq e.0 l, str_eq→eq e.0 k)

-- Setting a header leaves the others.
pub get-set_other :
    (k l v : Str) (hs : Headers) → str_eq l k ≡ false → get k (set l v hs) ≡ get k hs
unfolding set
get-set_other k l v hs h = get-add_other k l v (delete l hs) h ∙ get-delete_other k l hs h

pub get-set : (k v : Str) (hs : Headers) → get k (set k v hs) ≡ v
unfolding set get delete add
get-set k v [] = ground (arith, str_eq_refl k)
get-set k v (e ∷ hs) = ground (arith, get-set k v hs)

-- A plain answer keeps every header but the three that it sets or drops.
pub get-error_reply :
    (k : Str) (status : ℕ) (body : Str) (hs : Headers)
    → str_eq (str "X-Content-Type-Options") k ≡ false
    → str_eq (str "Content-Type") k ≡ false
    → str_eq (str "Content-Length") k ≡ false
    → get k (error_reply status body hs).headers ≡ get k hs
unfolding error_reply
get-error_reply k status body hs h i j =
    let kept = delete (str "Content-Length") hs in
    let typed = set (str "Content-Type") (str "text/plain; charset=utf-8") kept in
    get-set_other k (str "X-Content-Type-Options") (str "nosniff") typed h
    ∙ get-set_other k (str "Content-Type") (str "text/plain; charset=utf-8") kept i
    ∙ get-delete_other k (str "Content-Length") hs j
