-- ===== src/Storage/Rows.antt =====
-- internal/storage/sqlite.go: the rows of the deployments table, written, read and ordered.
use centralcloud_agent.Prelude.{Option, none, some, List, [], ◌∷◌, if◌then◌else◌, Bytes, codes}
use centralcloud_agent.Errors.{Result, ok, err, wrap}
use centralcloud_agent.Domain.Clock.{Time, text_lt, format_time}
use centralcloud_agent.Contracts.{CreateDeploymentRequest}
use centralcloud_agent.Packages.{Packages}
use centralcloud_agent.Packages.Http.{Http}
use centralcloud_agent.Domain.Model.{Deployment}
use centralcloud_agent.Storage.Tables.{DeploymentRow}

-- The row of a deployment, with the JSON texts of its request and its aliases.
unfoldable pub to_row : Deployment → Bytes → Bytes → Time → Time → DeploymentRow
unfolding format_time
to_row d request aliases created updated = record {
  deployment_id = d.request.deployment_id;
  request_json = request;
  aliases_json = aliases;
  state = d.state;
  credentials_ref = d.credentials_ref;
  encrypted_secret = d.encrypted_secret;
  encrypted_bootstrap = d.encrypted_bootstrap;
  failed_step = d.failed_step;
  created_at = format_time created;
  updated_at = format_time updated;
}

-- `t, _ = time.Parse(time.RFC3339Nano, s)`: the zero time, where the text is none.
abbrev pub or_zero_time : Option Time → Time
or_zero_time none = record { seconds = 0; nanos = 0 }
or_zero_time (some t) = t

-- The rest of scanDeployment, with what the decoder made of the request, and of the aliases.
abbrev pub with_aliases :
    Http → DeploymentRow → CreateDeploymentRequest → Result (List Bytes) → Result Deployment
with_aliases http r request (err e) = err (wrap (codes "decode deployment aliases") e)
with_aliases http r request (ok aliases) = ok (record {
  request = record request { aliases = aliases };
  state = r.state;
  credentials_ref = r.credentials_ref;
  encrypted_secret = r.encrypted_secret;
  encrypted_bootstrap = r.encrypted_bootstrap;
  failed_step = r.failed_step;
  created_at = or_zero_time (http.parse_time r.created_at);
  updated_at = or_zero_time (http.parse_time r.updated_at);
})

abbrev pub with_request :
    Packages → Http → DeploymentRow → Result CreateDeploymentRequest → Result Deployment
with_request pkg http r (err e) = err e
with_request pkg http r (ok request) =
    with_aliases http r request (pkg.unmarshal_aliases r.aliases_json)

unfoldable pub scan_deployment : Packages → Http → DeploymentRow → Result Deployment
scan_deployment pkg http r = with_request pkg http r (pkg.unmarshal_request r.request_json)

-- ORDER BY created_at
unfoldable pub insert_by_created : DeploymentRow → List DeploymentRow → List DeploymentRow
unfolding text_lt
insert_by_created r [] = r ∷ []
insert_by_created r (q ∷ qs) =
    if text_lt q.created_at r.created_at then q ∷ insert_by_created r qs else r ∷ q ∷ qs

unfoldable pub order_by_created : List DeploymentRow → List DeploymentRow
unfolding insert_by_created
order_by_created [] = []
order_by_created (r ∷ rs) = insert_by_created r (order_by_created rs)

-- One round of the loop over the rows, with the deployments of the rows that follow.
abbrev pub listed : Result Deployment → Result (List Deployment) → Result (List Deployment)
listed (err e) rest = err e
listed (ok d) (err e) = err e
listed (ok d) (ok ds) = ok (record d { encrypted_secret = [] } ∷ ds)

unfoldable pub scan_all : Packages → Http → List DeploymentRow → Result (List Deployment)
scan_all pkg http [] = ok []
scan_all pkg http (r ∷ rs) = listed (scan_deployment pkg http r) (scan_all pkg http rs)
