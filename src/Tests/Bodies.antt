-- ===== src/Tests/Bodies.antt =====
-- A request in two chunks, within the limit and beyond it.
use fcam_gateway.Prelude.{◌≡◌, refl, true, [], ◌∷◌}
use fcam_gateway.Prelude.Text.{codes}
use fcam_gateway.Middleware.{Limits, Length, Inbound, read_stream, read_whole, dispatch}
use fcam_gateway.Middleware.Body.{read_stream-read_whole}
use fcam_gateway.Middleware.Passed.{Admitted, passed-Admitted}

abbrev some_limits : Limits
some_limits = record {
  max_body_bytes = 4;
  allowed_api_paths = codes "scrape" ∷ [];
  allowed_exa_paths = [];
  stream_body_limit = true;
}

abbrev a_post : Inbound
a_post = record {
  path = codes "/v2/scrape";
  method = codes "POST";
  content_length = Length.absent;
  content_type = codes "application/json";
  chunks = codes "{" ∷ [] ∷ codes "}" ∷ [];
}

read_stream-read_whole_example :
    read_stream 4 0 [] (codes "{123" ∷ codes "}" ∷ [])
    ≡ read_whole 4 (codes "{123" ∷ codes "}" ∷ [])
read_stream-read_whole_example = read_stream-read_whole 4 (codes "{123" ∷ codes "}" ∷ [])

passed-Admitted_example : Admitted some_limits a_post (codes "{}")
unfolding dispatch fcam_gateway.Middleware.read_stream fcam_gateway.Prelude.Text.split
    fcam_gateway.Prelude.Text.one_of fcam_gateway.Prelude.Text.contains
passed-Admitted_example = passed-Admitted some_limits a_post (codes "{}") refl
