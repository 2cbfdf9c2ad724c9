-- ===== src/Lib.antt =====
-- harbour-localsend, a LocalSend client for Sailfish OS: what it sends and what it receives.
--
-- The parts, and the file that models each:
-- - src/receiveservice.cpp answers the endpoints that a sender talks to and runs the one incoming
--   session. ReceiveService/State holds its state as a record (a connection is a number, the timers
--   are flags, the disk is a list of paths with their bytes); ReceiveService/Prepare the request, the
--   user's answer and cancelling (handlePrepareUpload is prepare_upload, accept is accept, and so on);
--   ReceiveService/Upload the upload endpoint (handleUploadHeaders, handleUploadFinished,
--   onUploadClosed) with the body between them, for which deliver and streamBodyTo of
--   src/httpserver.cpp stand; ReceiveService/Finish the end of a session (finishSession);
--   ReceiveService/FileName the names of received files (sanitizeFileName, reserveFilePath);
--   ReceiveService/Machine all of these as events of one state machine, and a diagram of its modes.
-- - src/sendservice.cpp runs the one outgoing transfer: SendService, with its state and what it posts
--   in SendService/State (a request is posted by putting it in front of a list, and a reply is known
--   by its number); SendService/Prepare is the request and its answer (sendFiles, submitPin,
--   onPrepareFinished); SendService/Upload the files one after the other (startNextFile,
--   onUploadFinished); SendService/End the ways in which a transfer ends (completeTransfer,
--   failTransfer, cancel); SendService/Machine all of these as events, and the three modes in between.
-- - src/harbour-localsend.cpp makes the objects and hands them to the services: Application, the two
--   services over the settings, the transfer, the history and the known devices that they share.
-- - Exchange puts the two ends together: what one device posts with src/sendservice.cpp, and the other
--   lets through with src/receiveservice.cpp.
-- - src/httpserver.cpp reads one HTTP request from one connection and answers it: HttpServer, with the
--   connection as a record in HttpServer/State, parseHead in HttpServer/Head, deliver, consumeBody and
--   consumeChunkedBody in HttpServer/Body, and what the socket and the timers call (onReadyRead and so
--   on) in HttpServer/Events. Its handlers are a parameter: lists of calls of its public functions.
-- - src/transfermodel.cpp is the model of the transfer in flight: TransferModel.
-- - src/ratelimiter.cpp holds back an address that keeps guessing the PIN: RateLimiter.
-- - src/knowndevices.cpp knows which key belongs to which name, and which keys are blocked:
--   KnownDevices.
-- - src/devicemodel.cpp keeps the list of devices in reach: DeviceModel, with Qt's comparison of
--   texts as the record Collation.
-- - src/selectionmodel.cpp keeps the files that are chosen for sending: SelectionModel, with what Qt
--   tells of the disk as the record Disk.
-- - src/appsettings.cpp is read for the PIN, the port, the name and the devices added by hand:
--   AppSettings.
-- - src/historymodel.cpp keeps the log of sessions: HistoryModel.
-- - src/deviceinfo.cpp reads what a peer sends of itself: DeviceInfo, through the filter of
--   src/protocol.cpp: Protocol.
-- - src/crypto.cpp compares secrets: Crypto.
-- - qml/components/Formatting.js turns numbers into what the pages show, and paths into links:
--   Formatting, all of its functions, with the engine's encodeURI in Engine/Uri.
-- - qml/components/DeviceLook.js gives a device its colour and its letters: DeviceLook, all of its
--   functions.
--
-- ReceiveService calls the others: prepare_upload asks AppSettings for the PIN, RateLimiter whether
-- the address may try and KnownDevices whether the key is blocked, reads the peer with DeviceInfo, and
-- fills TransferModel; uploads move the rows of TransferModel; the end of a session is recorded in
-- KnownDevices and HistoryModel. SendService fills the same TransferModel, moves its rows with each
-- reply of the peer, and records in the same two.
--
-- What is taken from Qt and OpenSSL is a parameter of the definitions, the record Platform, with the
-- documented behaviour that the proofs rely on; Platform has an instance for ASCII texts, ascii, at
-- which the tests run. The random tokens, and whether the disk lets a path be written, opened or
-- renamed, are the record ReceiveService.State.Env; for the outgoing transfer the tokens, and the
-- files that are chosen, are the record SendService.State.Env, and the replies come with the events.
-- What the parser of requests takes from Qt, the reading of numbers and of URLs among it, is the
-- record HttpServer.Wire.Wire. The numbers of the QML engine, which are floats there, with its tests
-- of white space and its upper case, are the record Engine; it has an instance for exact fractions,
-- fractions, at which the tests run. The clock is an argument.
--
-- Texts are lists of code units. Numbers are naturals; where the source subtracts, the model writes
-- out what a negative difference does there, and speeds, which can be negative, are integers. The
-- 64-bit overflow of byte counts is not modelled. A QHash is an association list whose order stands
-- for the hash's. The names that reserveFilePath tries are counted by a number of rounds, 998,
-- which is what its loop from 2 to 999 makes; the other definitions on fuel are the decimal digits
-- of the instance ascii, for which a number has fewer digits than itself and one, and the rounds of
-- the loops of Formatting and DeviceLook: one for each character of a fingerprint, three units, and
-- for the hexadecimal digits as many rounds as the number and one. The loop over the chunks of a
-- body has twice as many rounds as the buffer has bytes, and two.
--
-- Not modelled: the listening socket, the routing of requests to handlers, discovery, TLS and the
-- stores, signals to the pages, the pages themselves, and the translations. The body of a file that
-- is sent is not modelled either, but only where it stands and how long it is. The query of a URL that
-- one device writes and the other reads is taken as it was. SecureStore, its failures among them, and
-- the JSON that stands in it are not modelled: KnownDevices has what is handed to the store and is
-- given what the store gives back. A read from a socket may bring any number of bytes in the model;
-- Qt hands over at most its read buffer of 256 KiB at a time.
pub mod Common
pub mod Platform
pub mod Crypto
pub mod Protocol
pub mod TransferModel
pub mod AppSettings
pub mod DeviceInfo
pub mod HistoryModel
pub mod KnownDevices
pub mod RateLimiter
pub mod ReceiveService
pub mod SendService
pub mod Application
pub mod Exchange
pub mod SelectionModel
pub mod HttpServer
pub mod DeviceModel
pub mod Engine
pub mod Formatting
pub mod DeviceLook
