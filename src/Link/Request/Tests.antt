-- ===== src/Link/Request/Tests.antt =====
-- Runs of `AisgLink.request` of openaisg/link.py.
use openaisg.Common.{arith, List, [], ◌∷◌}
use openaisg.Link.State.{Link, no_stats}
use openaisg.Link.Exchange.{Round}
use openaisg.Link.Request.{request}
use openaisg.Link.Request.Ends.{Replied, request_ends}

abbrev link : Link
link = record { peers = []; stats = no_stats }

abbrev silence : List Round
silence =
    record { frames = []; now = 11000 }
    ∷ record { frames = []; now = 12001 }
    ∷ record { frames = []; now = 12002 }
    ∷ record { frames = []; now = 12003 }
    ∷ record { frames = []; now = 12004 }
    ∷ []

request_ends_example : Replied (request 3 (0x34 ∷ 0 ∷ 0 ∷ []) 3000 3 link 0 silence).0
request_ends_example = request_ends 3 3000 3 0 (0x34 ∷ 0 ∷ 0 ∷ []) link silence (omega arith)
