-- ===== src/Cors.antt =====
-- `allowed_origins` and `_apply_cors_response_headers`, which apps/api/routers/audit/app.py,
-- incident_store/app.py and router/app.py share.
use Prim.Native.Char.{Char}
use ai_assisted_aws_incident.Prelude.{
  ◌≡◌, ◌⊎◌, inl, inr, true, not, ◌&&◌, String, Option, none, some, List, [], ◌∷◌, ◌==◌, any,
  is_blank, map, select, strip, or_else, arith, Bool-cases, Option-cases, sym, ◌∙◌, ap,
  if◌then◌else◌,
}
use ai_assisted_aws_incident.Dict.{Dict, lookup, insert, lookup-insert_self, lookup-insert}
use ai_assisted_aws_incident.Environ.{Environ}

-- A letter in front of the first part.
abbrev extend : Char → List String → List String
extend c [] = String.◌∷◌ c "" ∷ []
extend c (t ∷ ts) = String.◌∷◌ c t ∷ ts

-- `text.split(",")`
unfoldable pub split_commas : String → List String
split_commas String.[] = "" ∷ []
split_commas (String.◌∷◌ c s) =
    let rest = split_commas s in if String.◌∷◌ c "" == "," then "" ∷ rest else extend c rest

-- `allowed_origins`
unfoldable pub allowed_origins : Environ → List String
allowed_origins env =
    select (λ origin. not (is_blank origin))
      (map strip (
        split_commas (
          or_else (env.getenv "CORS_ALLOW_ORIGINS") "http://localhost:5173,http://localhost:5175")))

-- `if origin and origin in allowed_origins`
abbrev pub accepts : List String → Option String → Option String
accepts allowed none = none
accepts allowed (some origin) =
    if not (is_blank origin) && any (λ o. o == origin) allowed then some origin else none

abbrev pub headers_for : Option String → Dict String → Dict String
headers_for none headers = headers
headers_for (some origin) headers =
    insert "Vary" "Origin" (insert "Access-Control-Allow-Origin" origin headers)

-- `_apply_cors_response_headers`, on the header `origin` of a request
unfoldable pub apply_cors_response_headers : List String → Option String → Dict String → Dict String
apply_cors_response_headers allowed origin headers = headers_for (accepts allowed origin) headers

accepts-some :
    (allowed : List String) (origin : Option String) (o : String)
    → accepts allowed origin ≡ some o
    → (origin ≡ some o) × (any (λ a. a == o) allowed ≡ true)
accepts-some allowed none o h = cc
accepts-some allowed (some origin) o h =
    elim (Bool-cases (not (is_blank origin) && any (λ a. a == origin) allowed)) [
      | inl fine ↦
          let same : some origin ≡ some o = ground (arith, fine, h) in
          let key : origin ≡ o = cc in
          (same, ap (λ x. any (λ a. a == x) allowed) (sym key) ∙ ground (arith, fine))
      | inr refused ↦ absurd (ground (arith, refused, h))
    ]

-- A response that says whom it lets read it names the request's own origin, which is allowed; any other
-- request leaves the headers as they are.
apply_cors_response_headers-allowed :
    (allowed : List String) (origin : Option String) (headers : Dict String)
    → (apply_cors_response_headers allowed origin headers ≡ headers)
      ⊎ ((o : String) × (origin ≡ some o)
          × (any (λ a. a == o) allowed ≡ true)
          × (lookup "Access-Control-Allow-Origin"
                (apply_cors_response_headers allowed origin headers)
              ≡ some o))
unfolding apply_cors_response_headers
apply_cors_response_headers-allowed allowed origin headers =
    elim (Option-cases (accepts allowed origin)) [
      | inl refused ↦ inl (ap (λ x. headers_for x headers) refused)
      | inr (o, fine) ↦
          let (own, member) = accepts-some allowed origin o fine in
          let key : String = "Access-Control-Allow-Origin" in
          inr (
            o,
            own,
            member,
            ap (λ x. lookup key (headers_for x headers)) fine
                ∙ lookup-insert "Vary" key "Origin" (insert key o headers)
                ∙ lookup-insert_self key o headers,
          )
    ]
