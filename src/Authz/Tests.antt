-- ===== src/Authz/Tests.antt =====
-- The authorizer of runtime/authz at a concrete request.
use aggexp.Prelude.{List, [], ◌∷◌, some, true}
use aggexp.Text.{Bytes, codes}
use aggexp.Kube.{ok}
use aggexp.Authz.{Attributes, Service, Authorizer, authorize}
use aggexp.Authz.Decisions.{Justified, authorize-Justified}

-- A service that allows everything; the world counts the requests.
abbrev service : Service (List Bytes)
service = record {
  marshal = λ req. ok req.verb;
  post = λ w url body. (body ∷ w, ok (record { status_code = 200; body = body }));
  decode = λ body. ok (record { allow = true; reason = body });
  log = λ w req out. w;
}

abbrev authorizer : Authorizer
authorizer = record { url = codes "http://policy"; group = codes "g"; timeout = 2 }

abbrev attributes : Attributes
attributes = record {
  is_resource_request = true;
  user = some (record { name = codes "u"; groups = []; uid = []; extra = [] });
  verb = codes "get";
  api_group = codes "g";
  api_version = codes "v1";
  resource = codes "items";
  subresource = [];
  namespace = [];
  name = codes "x";
}

authorize-Justified_example :
    let out = authorize service authorizer [] attributes in
    Justified service authorizer [] attributes out.1.0 out.1.1
authorize-Justified_example = authorize-Justified service authorizer [] attributes
