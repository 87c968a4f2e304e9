-- ===== src/Authz/Decisions.antt =====
-- When the authorizer of runtime/authz/authorizer.go decides.
use aggexp.Prelude.{
  ◌≤◌, ◌<◌, ◌≡◌, ◌⊎◌, inl, inr, refl, Bool, true, false, Option, some, none, Bool-cases, arith, ltb,
  leb, ◌||◌,
}
use aggexp.Text.{Bytes, str_empty, str_eq}
use aggexp.Kube.{Result, ok, err}
use aggexp.Authz.{
  Decision, allow, deny, no_opinion, UserInfo, Attributes, PolicyResponse, HttpResponse, Service,
  Authorizer, request_of, verdict, read_response, send, ask, authorize_user, authorize,
  or_no_opinion,
}

module _ {World : Type 0} (s : Service World) (a : Authorizer) where
  -- The service answered the request of this user with a success and the given content.
  abbrev pub Answered : World → Attributes → Bool → Bytes → Type 0
  Answered w attrs allowed reason =
      (u : UserInfo) × (body : Bytes) × (resp : HttpResponse) × (attrs.user ≡ some u)
      × (s.marshal (request_of attrs u) ≡ ok body)
      × ((s.post w a.url body).1 ≡ ok resp)
      × (200 ≤ resp.status_code)
      × (resp.status_code < 300)
      × (s.decode resp.body ≡ ok (record { allow = allowed; reason = reason }))

  abbrev pub Applies : Attributes → Type 0
  Applies attrs =
      (attrs.is_resource_request ≡ true)
      × ((str_empty a.group ≡ true) ⊎ (str_eq attrs.api_group a.group ≡ true))

  abbrev pub Justified : World → Attributes → Decision → Bytes → Type 0
  Justified w attrs allow reason = Applies attrs × Answered w attrs true reason
  Justified w attrs deny reason = Applies attrs × Answered w attrs false reason
  Justified w attrs no_opinion reason = Unit

  -- What the answer of a successful call must be.
  abbrev Settles : (Bool → Bytes → Type 0) → Result (Decision × Bytes) → Type 0
  Settles Q (err e) = Unit
  Settles Q (ok (allow, reason)) = Q true reason
  Settles Q (ok (deny, reason)) = Q false reason
  Settles Q (ok (no_opinion, reason)) = Unit

  verdict-Settles :
      (Q : Bool → Bytes → Type 0) (v : Result PolicyResponse)
      → ((b : Bool) (reason : Bytes) → v ≡ ok (record { allow = b; reason = reason }) → Q b reason)
      → Settles Q (verdict s a v)
  verdict-Settles Q (err e) h = tt
  verdict-Settles Q (ok r) h = elim (Bool-cases r.allow) [
    | inl e ↦ rw e (h true r.reason (ground arith))
    | inr e ↦ rw e (h false r.reason (ground arith))
  ]

  read_response-Settles :
      (Q : Bool → Bytes → Type 0) (out : World × Result HttpResponse)
      → ((b : Bool) (reason : Bytes) (resp : HttpResponse)
          → out.1 ≡ ok resp
          → 200 ≤ resp.status_code
          → resp.status_code < 300
          → s.decode resp.body ≡ ok (record { allow = b; reason = reason })
          → Q b reason)
      → Settles Q (read_response s a out).1
  read_response-Settles Q (w, err e) h = tt
  read_response-Settles Q (w, ok resp) h =
      elim (Bool-cases (ltb resp.status_code 200 || leb 300 resp.status_code)) [
        | inl e ↦ rw e tt
        | inr e ↦ rw e (
            verdict-Settles Q (s.decode resp.body)
              (λ b reason. h b reason resp refl (ground arith) (ground arith)))
      ]

  send-Settles :
      (Q : Bool → Bytes → Type 0) (w : World) (m : Result Bytes)
      → ((b : Bool) (reason body : Bytes) (resp : HttpResponse)
          → m ≡ ok body
          → (s.post w a.url body).1 ≡ ok resp
          → 200 ≤ resp.status_code
          → resp.status_code < 300
          → s.decode resp.body ≡ ok (record { allow = b; reason = reason })
          → Q b reason)
      → Settles Q (send s a w m).1
  send-Settles Q w (err e) h = tt
  send-Settles Q w (ok body) h =
      read_response-Settles Q (s.post w a.url body) (λ b reason resp. h b reason body resp refl)

  Settles-Justified :
      (w : World) (attrs : Attributes) (out : Result (Decision × Bytes))
      → Applies attrs
      → Settles (Answered w attrs) out
      → Justified w attrs (or_no_opinion s a out).0 (or_no_opinion s a out).1
  Settles-Justified w attrs (err e) applies h = tt
  Settles-Justified w attrs (ok (allow, reason)) applies h = (applies, h)
  Settles-Justified w attrs (ok (deny, reason)) applies h = (applies, h)
  Settles-Justified w attrs (ok (no_opinion, reason)) applies h = tt

  user-Justified :
      (w : World) (attrs : Attributes) (o : Option UserInfo)
      → Applies attrs
      → attrs.user ≡ o
      → let out = authorize_user s a w attrs o in Justified w attrs out.1.0 out.1.1
  unfolding ask
  user-Justified w attrs none applies same = tt
  user-Justified w attrs (some u) applies same =
      Settles-Justified w attrs (ask s a w (request_of attrs u)).1 applies (
        send-Settles (Answered w attrs) w (s.marshal (request_of attrs u))
          (λ b reason body resp m p low high d. (u, body, resp, same, m, p, low, high, d)))

  -- The authorizer allows or denies only a resource request of its group (or of any, with no group
  -- set) whose user is known, and only when the policy service answered that very request with a
  -- status from 200 to 299 and a decodable response that says so, whose reason it returns. In every
  -- other case, failures of the service included, it has no opinion.
  pub authorize-Justified :
      (w : World) (attrs : Attributes)
      → let out = authorize s a w attrs in Justified w attrs out.1.0 out.1.1
  unfolding authorize
  authorize-Justified w attrs = elim (Bool-cases attrs.is_resource_request) [
    | inr e ↦ simp e tt
    | inl e ↦ elim (Bool-cases (str_empty a.group)) [
      | inl g ↦ simp (e, g) (user-Justified w attrs attrs.user (e, inl g) refl)
      | inr g ↦ elim (Bool-cases (str_eq attrs.api_group a.group)) [
        | inl same ↦ simp (e, g, same) (user-Justified w attrs attrs.user (e, inr same) refl)
        | inr other ↦ simp (e, g, other) tt
      ]
    ]
  ]
