-- ===== src/Client/Headers/Tests.antt =====
-- A response with two policies.
use cftm.Base.{◌≡◌}
use cftm.Base.Text.{split_at}
use cftm.Client.Headers.{parse_rate_limit_header}
use cftm.Client.Headers.Tightest.{least, named, remaining_of, parse_rate_limit_header-least}

parse_rate_limit_header-least_example :
    remaining_of (parse_rate_limit_header "burst;r=50;t=30, default;r=12")
    ≡ least (named (split_at b',' "burst;r=50;t=30, default;r=12"))
parse_rate_limit_header-least_example =
    parse_rate_limit_header-least "burst;r=50;t=30, default;r=12"
