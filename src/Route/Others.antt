-- ===== src/Route/Others.antt =====
-- route/route_others.go: systems that are not supported.
use cropstun.Base.Go.{Error, Result, err}
use cropstun.Route.{Route}

-- `DefaultRouteInterface`
unfoldable pub default_route_interface : Result Route
default_route_interface = err Error.invalid_argument
