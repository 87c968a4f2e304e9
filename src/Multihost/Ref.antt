-- ===== src/Multihost/Ref.antt =====
-- runtime/library/multihost/ref.go and options.go: references, resource names, callers and bodies.
use aggexp.Prelude.{
  ℕ, Bool, true, false, ◌&&◌, ◌||◌, List, [], ◌∷◌, ◌++◌, Option, leb, ◌==◌, length, take,
  if◌then◌else◌,
}
use aggexp.Text.{Bytes, codes, str_empty}
use aggexp.GoMap.{GoMap}
use aggexp.Library.Objects.{hex}

pub record ResourceRef : Type 0 where
  pub group : Bytes
  pub resource : Bytes
  pub namespace : Bytes
  pub name : Bytes

-- `user.Info`: what the code reads of it.
pub record User : Type 0 where
  pub user_name : Bytes
  pub groups : List Bytes

-- A field of a body: a string, or any other JSON value.
pub data Value (Json : Type 0) : Type 0 where
  text : Bytes → Value Json
  other : Json → Value Json

pub record Body (Json : Type 0) : Type 0 where
  pub owner : Bytes
  pub fields : GoMap (Value Json)

-- `IdentityGate`: may the caller see an object of this owner?
abbrev pub IdentityGate : Type 0
IdentityGate = Option User → Bytes → Bool

abbrev pub or_cluster : Bytes → Bytes
or_cluster ns = if str_empty ns then codes "cluster" else ns

unfoldable pub ref_string : ResourceRef → Bytes
ref_string r = r.group ++ 47 ∷ (r.resource ++ 47 ∷ (or_cluster r.namespace ++ 47 ∷ r.name))

-- strings.ReplaceAll(s, ".", "-")
unfoldable pub dots_to_dashes : Bytes → Bytes
dots_to_dashes [] = []
dots_to_dashes (c ∷ s) = (if c == 46 then 45 else c) ∷ dots_to_dashes s

abbrev pub is_alnum : ℕ → Bool
is_alnum c = (leb 97 c && leb c 122) || (leb 48 c && leb c 57)

-- The expression `dns1123` as an automaton: `start` at the start of a label, `inside` behind a letter or
-- digit, `dashed` behind a dash.
pub data DnsState : Type 0 where
  start inside dashed refused : DnsState

abbrev pub dns_step : DnsState → ℕ → DnsState
dns_step refused c = refused
dns_step start c = if is_alnum c then inside else refused
dns_step inside c =
    if is_alnum c then inside else if c == 45 then dashed else if c == 46 then start else refused
dns_step dashed c = if is_alnum c then inside else if c == 45 then dashed else refused

abbrev pub dns_accepts : DnsState → Bool
dns_accepts inside = true
dns_accepts start = false
dns_accepts dashed = false
dns_accepts refused = false

unfoldable pub dns_run : DnsState → Bytes → Bool
dns_run st [] = dns_accepts st
dns_run st (c ∷ s) = dns_run (dns_step st c) s

unfoldable pub is_dns1123_subdomain : Bytes → Bool
is_dns1123_subdomain s = leb (length s) 253 && dns_run start s

-- sha256 is a parameter.
abbrev pub name_or_hash : (Bytes → List ℕ) → Bytes → Bytes → Bytes
name_or_hash sha256 prefix candidate =
    if leb (length candidate) 253 && is_dns1123_subdomain candidate
    then candidate
    else prefix ++ take 24 (hex (sha256 candidate))

unfoldable pub record_name : (Bytes → List ℕ) → ResourceRef → Bytes
record_name sha256 r =
    name_or_hash sha256 (codes "rmeta-")
      (dots_to_dashes r.group ++ 46 ∷ (r.resource ++ 46 ∷ (or_cluster r.namespace ++ 46 ∷ r.name)))

unfoldable pub body_name : (Bytes → List ℕ) → Bytes → Bytes → Bytes
body_name sha256 namespace name =
    name_or_hash sha256 (codes "wbody-") (codes "body" ++ 46 ∷ (or_cluster namespace ++ 46 ∷ name))
