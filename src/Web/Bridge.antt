-- ===== src/Web/Bridge.antt =====
-- The bridge of apps/web/app/hosted-api-bridge.tsx, which sends what the pages ask of a local API
-- to the gateway: the replaced `fetch` and the clicks on links. A `Request` is given by its URL,
-- since the rest of it is kept.
use hostingservices.Common.{
  ℕ, zero, suc, ◌≡◌, refl, true, Option, none, some, [], ◌∷◌, ◌++◌, length, ap, ◌∙◌, arith,
  if◌then◌else◌, ap₂, append-nil,
}
use hostingservices.Common.Texts.{Text, text, text_eq, text_eq_iff, starts_with}
use hostingservices.Web.{Request, upstream, upstream_url}
use hostingservices.Web.Following.{segments, join-split}

abbrev pub api_origin : Text
api_origin = text "http://localhost:4000"

abbrev pub api_prefix : Text
api_prefix = text "/api/nexus"

-- `value.slice(n)`
abbrev pub slice_from : ℕ → Text → Text
slice_from zero t = t
slice_from (suc n) [] = []
slice_from (suc n) (c ∷ t) = slice_from n t

-- `rewriteUrl`
unfoldable pub rewrite_url : Text → Text
rewrite_url value =
    if starts_with api_origin value
    then api_prefix ++ slice_from (length api_origin) value
    else value

-- What `fetch` is called with.
pub data Input : Type 0 where
  address : Text → Input
  url : (origin href : Text) → Input
  request : Text → Input

-- What the replaced `fetch` passes on to the browser's; a URL that is rewritten becomes a text.
unfoldable pub bridged : Input → Input
unfolding rewrite_url
bridged (address a) = address (rewrite_url a)
bridged (url origin href) =
    if text_eq origin api_origin then address (rewrite_url href) else url origin href
bridged (request u) = if starts_with api_origin u then request (rewrite_url u) else request u

-- A click on a link with the address: the address that the link has then, and where the page goes,
-- if the bridge takes the click.
unfoldable pub on_click : Option Text → Option Text × Option Text
unfolding rewrite_url
on_click none = (none, none)
on_click (some href) =
    if starts_with api_origin href
    then (some (rewrite_url href), some (rewrite_url href))
    else (some href, none)

starts_with-append : (p rest : Text) → starts_with p (p ++ rest) ≡ true
unfolding starts_with
starts_with-append [] rest = refl
starts_with-append (c ∷ p) rest = ground (arith, starts_with-append p rest)

slice_from-append : (p rest : Text) → slice_from (length p) (p ++ rest) ≡ rest
slice_from-append [] rest = refl
slice_from-append (c ∷ p) rest = slice_from-append p rest

rewrite_url-append : (rest : Text) → rewrite_url (api_origin ++ rest) ≡ api_prefix ++ rest
unfolding rewrite_url
rewrite_url-append rest =
    rw (starts_with-append api_origin rest)
      (ap (λ t. api_prefix ++ t) (slice_from-append api_origin rest))

-- The path of a call below the local API is asked of the gateway, however the call is given and
-- also by a click; and the gateway asks it of the API that it is set up with, where it gets the
-- segments of the path as they stand in the URL.
pub bridged-upstream :
    (api rest : Text) (r : Request)
    → r.path ≡ segments rest
    → r.search ≡ []
    → let called = api_origin ++ b'/' ∷ rest in
      let asked = api_prefix ++ b'/' ∷ rest in
      (bridged (address called) ≡ address asked)
      × (bridged (url api_origin called) ≡ address asked)
      × (bridged (request called) ≡ request asked)
      × (on_click (some called) ≡ (some asked, some asked))
      × ((upstream api r).url ≡ api ++ b'/' ∷ rest)
unfolding bridged on_click upstream
bridged-upstream api rest r path query =
    let asked = rewrite_url-append (b'/' ∷ rest) in
    let starts = starts_with-append api_origin (b'/' ∷ rest) in
    (
      ap address asked,
      ap
            (λ x.
              if x
              then address (rewrite_url (api_origin ++ b'/' ∷ rest))
              else url api_origin (api_origin ++ b'/' ∷ rest))
            ((text_eq_iff api_origin api_origin).1 refl)
          ∙ ap address asked,
      rw (starts, slice_from-append api_origin (b'/' ∷ rest)) refl,
      rw (starts, slice_from-append api_origin (b'/' ∷ rest)) refl,
      ap₂ (upstream_url api) path query
          ∙ ap (λ p. api ++ b'/' ∷ (p ++ [])) (join-split b'/' rest)
          ∙ ap (λ p. api ++ b'/' ∷ p) (append-nil rest),
    )
