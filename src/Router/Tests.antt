-- ===== src/Router/Tests.antt =====
-- Safe names of apps/engine/src/router.ts.
use hostingservices.Common.{◌≡◌, refl}
use hostingservices.Common.Texts.{text}
use hostingservices.Router.{safe}

-- Two names share one file.
shared : safe (text "web_a") ≡ safe (text "web-a")
unfolding safe
shared = refl

cut : safe (text "-a/b.c--") ≡ text "a-b.c"
unfolding safe
cut = refl

empty : safe (text "__") ≡ text "service"
unfolding safe
empty = refl
