-- ===== src/Proxy/Tests.antt =====
-- The proxy at concrete paths; nothing is encoded in them.
use microsanbox_cloud.Control.Spec.{resolve_port, primary_or_default}
use microsanbox_cloud.Identity.{normalize_sandbox_id}
use microsanbox_cloud.Registry.{find_runtime_by_sandbox_id_or_name}
use microsanbox_cloud.Text.{trim, split, strip_end, strip_start, replace_runs, to_lower_case}
use microsanbox_cloud.Prelude.{ℕ, ◌≡◌, refl, arith, Option, none, some, Text, codes, [], text_eq}
use microsanbox_cloud.Effects.{ok, after, when◌then◌else◌}
use microsanbox_cloud.Text.Encode.{encode_uri_component}
use microsanbox_cloud.Text.Decimal.{decimal}
use microsanbox_cloud.Registry.Tokens.{create_signed_preview_token}
use microsanbox_cloud.Guards.{absent, single}
use microsanbox_cloud.Control.Tests.{willing}
use microsanbox_cloud.Control.Runs.{one_box, with_bindings}
use microsanbox_cloud.Control.Types.{Backend, Service}
use microsanbox_cloud.Control.Preview.{
  PreviewUrl, SignedPreviewUrl, base_url, standard_path, get_preview_url, get_signed_preview_url,
}
use microsanbox_cloud.Registry.Tests.{four_ports}
use microsanbox_cloud.Text.Encode.{is_unreserved}
use microsanbox_cloud.Identity.Normal.{IsName}
use microsanbox_cloud.Identity.Laws.{normalize_sandbox_id-fixed_iff}
use microsanbox_cloud.Proxy.Serving.{HttpAnswer, failed, serve_http}
use microsanbox_cloud.Proxy.Answers.{IsAnswer, serve_http-IsAnswer}
use microsanbox_cloud.Effects.{recover, missing_preview_token}
use microsanbox_cloud.Proxy.Following.{IsBound, get_preview_url-handle}
use microsanbox_cloud.Proxy.Expiring.{get_signed_preview_url-handle}
use microsanbox_cloud.Proxy.{Url, ProxyMatch, extract, handle}
use microsanbox_cloud.Proxy.Forwarding.{IsPermitted, handle-IsPermitted}

abbrev plainly : Text → Option Text
plainly t = some t

abbrev box_url : Url
box_url = record {
  pathname = standard_path (codes "a") (codes "22");
  search = codes "?x=1";
  token = none;
}

-- A backend that draws a token of letters and digits.
abbrev drawing : Backend ℕ
drawing = record willing { draw = λ size clock. (codes "t2", clock) }

a-IsName : IsName (codes "a")
unfolding normalize_sandbox_id strip_end strip_start replace_runs to_lower_case trim
a-IsName = (normalize_sandbox_id-fixed_iff (codes "a")).0 refl

abbrev box_link : PreviewUrl
box_link = record {
  sandbox_id = codes "a";
  port = 22;
  url = codes "http://localhost:3210/proxy/a/ports/22";
  token = codes "token-a";
  header_name = codes "x-microsandbox-preview-token";
  expires_at = none;
}

link_made : get_preview_url willing four_ports (codes "a") 22 one_box ≡ (ok box_link, one_box)
unfolding get_preview_url after find_runtime_by_sandbox_id_or_name normalize_sandbox_id strip_end
    strip_start replace_runs to_lower_case trim text_eq when◌then◌else◌ resolve_port
    primary_or_default encode_uri_component decimal
link_made = refl

get_preview_url-handle_example :
    (host : ℕ) × IsBound one_box (codes "a") 22 host
    × (handle plainly willing box_url (single (codes "token-a")) (record one_box { world = 9 })
        ≡ (ok (some (host, codes "/?x=1")), record one_box { world = 9 }))
unfolding base_url normalize_sandbox_id strip_end strip_start replace_runs to_lower_case trim
    text_eq
get_preview_url-handle_example =
    get_preview_url-handle plainly (λ t h. refl) four_ports willing box_url 22 (codes "a")
      with_bindings one_box one_box refl refl box_link 9 a-IsName refl refl link_made refl

abbrev signed_url : Url
signed_url = record { pathname = codes "/proxy/signed/t2/ports/8080"; search = []; token = none }

abbrev signed_link : SignedPreviewUrl
signed_link = record {
  sandbox_id = codes "a";
  port = 8080;
  token = codes "t2";
  url = codes "http://localhost:3210/proxy/signed/t2/ports/8080";
  expires_at = 601000;
}

abbrev with_link : Service ℕ
with_link = (get_signed_preview_url drawing four_ports (codes "a") 8080 one_box).1

signed_link_made :
    get_signed_preview_url drawing four_ports (codes "a") 8080 one_box ≡ (ok signed_link, with_link)
unfolding get_signed_preview_url after find_runtime_by_sandbox_id_or_name normalize_sandbox_id
    strip_end strip_start replace_runs to_lower_case trim text_eq when◌then◌else◌ resolve_port
    primary_or_default create_signed_preview_token encode_uri_component decimal
signed_link_made = refl

get_signed_preview_url-handle_example :
    (host : ℕ) × IsBound with_link (codes "a") 8080 host
    × (handle plainly drawing signed_url absent (record with_link { world = 2000 })
        ≡ (ok (some (host, codes "/")), record with_link { world = 2001 }))
unfolding base_url is_unreserved normalize_sandbox_id strip_end strip_start replace_runs
    to_lower_case trim text_eq
get_signed_preview_url-handle_example =
    get_signed_preview_url-handle plainly (λ t h. refl) four_ports drawing signed_url 8080
      (codes "a") with_bindings one_box with_link refl refl signed_link 2000 (refl, (refl, tt)) refl
      signed_link_made refl (omega arith)

forwarded :
    handle plainly willing box_url (single (codes "token-a")) one_box
    ≡ (ok (some (31001, codes "/?x=1")), one_box)
unfolding handle after split text_eq find_runtime_by_sandbox_id_or_name normalize_sandbox_id
    strip_end strip_start replace_runs to_lower_case trim resolve_port primary_or_default
forwarded = refl

handle-IsPermitted_example :
    (found : ProxyMatch) × (extract plainly box_url (single (codes "token-a")) one_box
      ≡ (ok (some found), one_box))
    × IsPermitted willing found one_box one_box 31001
handle-IsPermitted_example =
    handle-IsPermitted plainly willing box_url (single (codes "token-a")) 31001 (codes "/?x=1")
      one_box one_box forwarded

serve_http-IsAnswer_example :
    (a : HttpAnswer) × (s' : Service ℕ) × (serve_http plainly willing box_url absent one_box
      ≡ (ok a, s'))
    × IsAnswer willing one_box s' (extract plainly box_url absent one_box).0 a
serve_http-IsAnswer_example = serve_http-IsAnswer willing plainly box_url absent one_box

-- Without the token the request is refused.
refused :
    serve_http plainly willing box_url absent one_box
    ≡ (ok (failed 401 missing_preview_token), one_box)
unfolding serve_http recover after handle split text_eq find_runtime_by_sandbox_id_or_name
    normalize_sandbox_id strip_end strip_start replace_runs to_lower_case trim
refused = refl
