-- ===== src/SendService/End/Outcome.antt =====
-- src/sendservice.cpp, completeTransfer: what it makes of the files that were not sent.
use harbour_localsend.Common.{==_iff, ==_iff}
use harbour_localsend.Platform.{Platform}
use harbour_localsend.TransferModel.{TransferModel, State}
