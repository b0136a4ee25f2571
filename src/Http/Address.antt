-- ===== src/Http/Address.antt =====
-- internal/adapter/http/handler/client_ip.go
use kde_auth.Prelude.{String, Option, none, some, ◌==◌, not, leb, if◌then◌else◌}
use Prim.Native.String.{len, find, slice}
use kde_auth.Http.{HttpRequest, Site}

-- strings.Cut: what stands before the first separator, the whole text where there is none. `find`
-- is `len s + 1` where the text does not occur.
abbrev pub cut_before : String → String → String
cut_before s sep = if leb (find s sep) (len s) then slice s 0 (find s sep) else s

abbrev host_or_address : Option String → String → String
host_or_address (some host) address = host
host_or_address none address = address

unfoldable pub client_ip : Site → HttpRequest → String
client_ip site r =
    let ip = site.trim_space (r.header "X-Real-IP") in
    let xff = r.header "X-Forwarded-For" in
    if not (ip == "")
    then ip
    else if not (xff == "")
    then site.trim_space (cut_before xff ",")
    else host_or_address (site.split_host_port r.remote_addr) r.remote_addr
