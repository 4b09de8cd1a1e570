-- ===== src/Webhook/Tests.antt =====
-- A push, and the theorem at it. The HMAC is the secret before the body.
use orxies.Prelude.{◌≡◌, refl, true, [], ◌∷◌, ◌++◌, some, Text, codes}
use orxies.Prelude.Decimal.{parse_digits, parse_int}
use orxies.Store.Projects.{ProjectTable, find_project}
use orxies.Webhook.{Hook, HookReply, valid_signature, serve_hook}
use orxies.Webhook.Triggers.{Signed, serve_hook-Signed}

program : Unit {0}
unfolding valid_signature serve_hook parse_digits parse_int find_project
program = tt

abbrev hmac_hex : Text → Text → Text
hmac_hex secret body = secret ++ body

abbrev table : ProjectTable
table = record {
  rows =
      record {
        id = 7;
        name = codes "blog";
        source_path = [];
        strategy = codes "static";
        build_cmd = [];
        run_cmd = [];
        app_port = 0;
        domain = codes "blog.io";
        created_at = 1;
        repo_url = [];
        branch = [];
        token_enc = [];
        webhook_secret = codes "s3";
        env_enc = [];
      }
      ∷ [];
  seq = 7;
}

abbrev push : Hook
push = record {
  path = codes "/_orxies/deploy/7";
  is_post = true;
  body = some (codes "body");
  signature = codes "sha256=s3body";
  event = codes "push";
}

deployed : serve_hook hmac_hex table push ≡ HookReply.triggered 7
unfolding program
deployed = refl

forged :
    serve_hook hmac_hex table (record push { signature = codes "sha256=x" })
    ≡ HookReply.invalid_signature
unfolding program
forged = refl

serve_hook-Signed_example : Signed hmac_hex table push 7
serve_hook-Signed_example = serve_hook-Signed hmac_hex table push 7 deployed
