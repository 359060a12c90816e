-- ===== src/Probe/Http/Redirect.antt =====
-- isRedirect, resolveRedirect, redirectedRequest and stripRequestBodyHeaders of internal/probe/http.go.
use netsonar.Base.{
  ◌≡◌, ◌≢◌, refl, inl, inr, Bool, true, false, ◌&&◌, ◌||◌, not, String, ◌<>◌, str_eq, str_eq_iff,
  subst, is_blank, [], ◌∷◌, All, if◌then◌else◌, arith, Bool-cases,
}
use netsonar.Base.Int.{ℤ, pos, ltb_ℤ, eq_ℤ}
use netsonar.Proxyurl.{Parts}
use netsonar.Probe.Sockets.{got, failed, Sockets}
use netsonar.Probe.Http.{Headers, HttpOps, Response}

-- 301, 302 and 303.
abbrev pub is_see_other : ℤ → Bool
is_see_other code = eq_ℤ code (pos 301) || (eq_ℤ code (pos 302) || eq_ℤ code (pos 303))

-- 307 and 308.
abbrev pub is_repeat : ℤ → Bool
is_repeat code = eq_ℤ code (pos 307) || eq_ℤ code (pos 308)

unfoldable pub is_redirect : ℤ → Bool
is_redirect code = is_see_other code || is_repeat code

-- The results of resolveRedirect: not to follow, where to, or an error.
pub data Redirect : Type 0 where
  stay : Redirect
  follow : Parts → Redirect
  bad : String → Redirect

abbrev pub is_safe_method : String → Bool
is_safe_method m = str_eq m "GET" || str_eq m "HEAD"

module _ {W : Type 0} {net : Sockets W} (http : HttpOps net) where
  unfoldable pub check_scheme : Parts → Redirect
  check_scheme u =
      if not (str_eq u.scheme "http") && not (str_eq u.scheme "https")
      then bad ("unsupported redirect scheme " <> u.scheme)
      else follow u

  unfoldable pub resolve_redirect : Parts → Response → Redirect
  unfolding check_scheme
  resolve_redirect base resp =
      if is_blank resp.location then stay else elim (http.resolve_reference base resp.location) [
        | failed e ↦ bad ("parse Location " <> resp.location <> ": " <> e)
        | got u ↦ check_scheme u
      ]

  -- `continue` on the two headers.
  unfoldable pub is_body_header : String → Bool
  is_body_header k =
      str_eq (http.canonical_header_key k) "Content-Type"
      || str_eq (http.canonical_header_key k) "Content-Length"

  unfoldable pub strip_request_body_headers : Headers → Headers
  strip_request_body_headers [] = []
  strip_request_body_headers ((k, v) ∷ hs) =
      if is_body_header k
      then strip_request_body_headers hs
      else (k, v) ∷ strip_request_body_headers hs

  -- The method, the length of the body and the headers of the next request.
  unfoldable pub redirected_request : String → ℤ → Headers → ℤ → String × ℤ × Headers
  unfolding strip_request_body_headers
  redirected_request method code headers body_bytes =
      if is_see_other code
      then (
        if is_safe_method method then method else "GET",
        pos 0,
        strip_request_body_headers headers,
      )
      else if is_repeat code
      then if str_eq method "POST" && ltb_ℤ (pos 0) body_bytes
        then (method, body_bytes, headers)
        else if is_safe_method method
        then (method, pos 0, strip_request_body_headers headers)
        else (method, pos 0, headers)
      else (method, pos 0, headers)

  -- No header is Content-Type or Content-Length, in whatever case.
  abbrev pub Bodiless : Headers → Type 0
  Bodiless hs =
      All
        (λ h.
          (http.canonical_header_key h.0 ≢ "Content-Type")
          × (http.canonical_header_key h.0 ≢ "Content-Length"))
        hs

  kept_header :
      (k : String)
      → is_body_header k ≡ false
      → (http.canonical_header_key k ≢ "Content-Type")
        × (http.canonical_header_key k ≢ "Content-Length")
  unfolding is_body_header
  kept_header k e = (
    λ q. absurd (ground (arith, str_eq_iff (http.canonical_header_key k) "Content-Type")),
    λ q. absurd (ground (arith, str_eq_iff (http.canonical_header_key k) "Content-Length")),
  )

  strip_request_body_headers-Bodiless : (hs : Headers) → Bodiless (strip_request_body_headers hs)
  unfolding strip_request_body_headers
  strip_request_body_headers-Bodiless [] = tt
  strip_request_body_headers-Bodiless ((k, v) ∷ hs) = elim (Bool-cases (is_body_header k)) [
    | inl e ↦ rw e (strip_request_body_headers-Bodiless hs)
    | inr e ↦ rw e (kept_header k e, strip_request_body_headers-Bodiless hs)
  ]

  safe_is_not_post : (m : String) → is_safe_method m ≡ true → str_eq m "POST" ≡ false
  safe_is_not_post m h = elim (Bool-cases (str_eq m "POST")) [
    | inl e ↦ absurd (no_post ((str_eq_iff m "POST").0 e))
    | inr e ↦ e
  ]
    where
      no_post : m ≡ "POST" → ⊥
      no_post e = cc (subst (λ k. is_safe_method k ≡ true) e h)

  safe_request-Bodiless :
      (method : String) (code : ℤ) (headers : Headers) (body_bytes : ℤ)
      → is_redirect code ≡ true
      → let (m, b, hs) = redirected_request method code headers body_bytes in
        is_safe_method m ≡ true → (b ≡ pos 0) × Bodiless hs
  unfolding redirected_request is_redirect
  safe_request-Bodiless method code headers body_bytes r =
      let bodiless = strip_request_body_headers-Bodiless headers in
      elim (Bool-cases (is_see_other code)) [
        | inl e ↦ rw e (λ s. (refl, bodiless))
        | inr e ↦
            let again : is_repeat code ≡ true = ground arith in
            rw (e, again)
              (elim (Bool-cases (is_safe_method method)) [
                | inl s ↦ rw (safe_is_not_post method s, s) (λ t. (refl, bodiless))
                | inr s ↦ λ t. absurd (ground arith)
              ])
      ]

  -- The next request after a redirect, if it is a GET or a HEAD, has no body and no Content-Type or
  -- Content-Length header, whatever the request was that was redirected.
  pub redirected_request-Bodiless :
      (method : String) (code : ℤ) (headers : Headers) (body_bytes : ℤ)
      → is_redirect code ≡ true
      → is_safe_method (redirected_request method code headers body_bytes).0 ≡ true
      → ((redirected_request method code headers body_bytes).1 ≡ pos 0)
        × Bodiless (redirected_request method code headers body_bytes).2
  redirected_request-Bodiless method code headers body_bytes r s =
      safe_request-Bodiless method code headers body_bytes r s
