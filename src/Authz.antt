-- ===== src/Authz.antt =====
-- runtime/authz/authorizer.go: the authorizer that asks an external policy service. HTTP and the JSON
-- codec are parameters; the world is what the service and the log see.
pub mod Decisions
mod Tests
use aggexp.Prelude.{
  ℕ, ◌*◌, ◌^◌, Bool, true, false, not, ◌&&◌, ◌||◌, List, [], Option, none, some, ltb, leb, ◌==◌,
  if◌then◌else◌,
}
use aggexp.Text.{Bytes, codes, str_eq, str_empty}
use aggexp.Kube.{ApiError, Result, ok, err}

pub data Decision : Type 0 where
  allow deny no_opinion : Decision

pub record UserInfo : Type 0 where
  pub name : Bytes
  pub groups : List Bytes
  pub uid : Bytes
  pub extra : List (Bytes × List Bytes)

pub record Attributes : Type 0 where
  pub is_resource_request : Bool
  pub user : Option UserInfo
  pub verb : Bytes
  pub api_group : Bytes
  pub api_version : Bytes
  pub resource : Bytes
  pub subresource : Bytes
  pub namespace : Bytes
  pub name : Bytes

pub record PolicyRequest : Type 0 where
  pub user : Bytes
  pub groups : List Bytes
  pub uid : Bytes
  pub extra : List (Bytes × List Bytes)
  pub verb : Bytes
  pub api_group : Bytes
  pub api_version : Bytes
  pub resource : Bytes
  pub subresource : Bytes
  pub namespace : Bytes
  pub name : Bytes

pub record PolicyResponse : Type 0 where
  pub allow : Bool
  pub reason : Bytes

pub record HttpResponse : Type 0 where
  pub status_code : ℕ
  pub body : Bytes

-- `post` is `http.Client.Do` on a POST of the body; `log` is the callback, the identity when unset.
pub record Service (World : Type 0) : Type 0 where
  pub marshal : PolicyRequest → Result Bytes
  pub post : World → Bytes → Bytes → World × Result HttpResponse
  pub decode : Bytes → Result PolicyResponse
  pub log : World → PolicyRequest → Result (Decision × Bytes) → World

pub record Authorizer : Type 0 where
  pub url : Bytes
  pub group : Bytes
  pub timeout : ℕ

-- `New`: two seconds unless a timeout is given.
unfoldable pub new_authorizer : Bytes → Bytes → ℕ → Authorizer
new_authorizer url group timeout = record {
  url = url;
  group = group;
  timeout = if timeout == 0 then 2 * 10 ^ 9 else timeout;
}

-- `flattenExtras` copies the map.
unfoldable pub request_of : Attributes → UserInfo → PolicyRequest
request_of a u = record {
  user = u.name;
  groups = u.groups;
  uid = u.uid;
  extra = u.extra;
  verb = a.verb;
  api_group = a.api_group;
  api_version = a.api_version;
  resource = a.resource;
  subresource = a.subresource;
  namespace = a.namespace;
  name = a.name;
}

module _ {World : Type 0} (s : Service World) (a : Authorizer) where
  abbrev pub verdict : Result PolicyResponse → Result (Decision × Bytes)
  verdict (err e) = err e
  verdict (ok r) = ok (if r.allow then allow else deny, r.reason)

  abbrev pub read_response : World × Result HttpResponse → World × Result (Decision × Bytes)
  read_response (w, err e) = (w, err e)
  read_response (w, ok resp) = (
    w,
    if ltb resp.status_code 200 || leb 300 resp.status_code
        then err (ApiError.upstream [])
        else verdict (s.decode resp.body),
  )

  abbrev pub send : World → Result Bytes → World × Result (Decision × Bytes)
  send w (err e) = (w, err e)
  send w (ok body) = read_response (s.post w a.url body)

  unfoldable pub ask : World → PolicyRequest → World × Result (Decision × Bytes)
  ask w req = send w (s.marshal req)

  abbrev pub or_no_opinion : Result (Decision × Bytes) → Decision × Bytes
  or_no_opinion (err e) = (no_opinion, codes "policy service unavailable")
  or_no_opinion (ok d) = d

  abbrev pub authorize_user : World → Attributes → Option UserInfo → World × (Decision × Bytes)
  authorize_user w attrs none = (w, (no_opinion, codes "missing user"))
  authorize_user w attrs (some u) =
      let req = request_of attrs u in
      let out = ask w req in (s.log out.0 req out.1, or_no_opinion out.1)

  -- `Authorize` never returns an error.
  unfoldable pub authorize : World → Attributes → World × (Decision × Bytes)
  authorize w attrs =
      if not attrs.is_resource_request
      then (w, (no_opinion, []))
      else if not (str_empty a.group) && not (str_eq attrs.api_group a.group)
      then (w, (no_opinion, []))
      else authorize_user w attrs attrs.user
