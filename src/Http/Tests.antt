-- ===== src/Http/Tests.antt =====
-- Runs of the HTTP binding on small inputs, and its theorems at such inputs.
use benzene_python.Prelude.{◌≡◌, refl, none, some, true, false}
use benzene_python.Dict.{get}
use benzene_python.Results.Status
use benzene_python.Http.Status.{to_http, from_http}
use benzene_python.Http.Status.Classes.{from_http-to_http_class}

status_runs :
    (to_http "timeout" none ≡ 504)
    × (to_http "warm" (some true) ≡ 200)
    × (from_http 418 ≡ "unexpected-error")
unfolding to_http from_http get
status_runs = (refl, refl, refl)

from_http-to_http_class_example :
    Status.is_successful (from_http (to_http "updated" none)) ≡ Status.is_successful "updated"
from_http-to_http_class_example = from_http-to_http_class "updated"

unknown_fails : Status.is_successful "out-of-stock" ≡ false
unfolding Status.is_successful
unknown_fails = refl
