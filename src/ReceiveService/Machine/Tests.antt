-- ===== src/ReceiveService/Machine/Tests.antt =====
-- src/receiveservice.cpp: a session from the request to its end, along the diagram.
use harbour_localsend.Common.{refl}
use harbour_localsend.Platform.{ascii}
use harbour_localsend.ReceiveService.Fixtures.{idle_service, willing, request}
use harbour_localsend.ReceiveService.Machine.{prepares, step}
use harbour_localsend.ReceiveService.Machine.Diagram.{idle}
use harbour_localsend.ReceiveService.Machine.Answer.{Follows}
use harbour_localsend.ReceiveService.Machine.Refine.{step-Follows}

step-Follows_example :
    Follows (prepares request) idle (step ascii willing 100 (prepares request) idle_service)
step-Follows_example =
    step-Follows ascii willing (λ n. refl) 100 (prepares request) idle idle_service
      (refl, refl, refl, refl)
