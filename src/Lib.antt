-- ===== src/Lib.antt =====
-- WallERA: a hardware wallet that speaks the Ledger protocol over USB HID.
--
-- A host cuts a request into HID frames of at most 64 bytes. The device puts the frames of one
-- request together in a session, hands the request to a registry of applications, which routes
-- it by the class and instruction bytes, and cuts the answer into frames again. The one
-- application is that of Cosmos: it signs documents and derives addresses with a token, which
-- derives its keys along a path that the host names. On boards with TrustZone the token's code
-- runs in an applet of the secure world, which takes its requests from a mailbox.
--
-- The parts, and the files of the repository that they model:
--   Usb/Frame      usb/usb.go: HIDFrame, HIDFrameNext, Validate, readFrame, and the wire format
--   Usb/Session    usb/usb.go: Session with NewSession, ReadData, ReadFrame, readFrame, Data
--   Usb/Format     usb/usb.go: FormatResponse, chunk, chunkFunc
--   Crypto         crypto/crypto.go: the Token interface, DerivationPath, KeyFromPath
--   Crypto/DumbToken  crypto/crypto_token.go: the software token
--   Apps           apps/apps.go and apps/apdu.go: Handler, Register, Handle, PackageResponse
--   Apps/Cosmos    apps/cosmos/cosmos.go: the Cosmos application
--   Device/Firmware   firmware/wallera.go: Rx, which joins sessions and applications
--   Device/Firmware/Channel   firmware/wallera.go: Rx and Tx over their channel
--   Device/Firmware/Wallet    firmware/main.go: the handler with the Cosmos application
--   Device/Main    firmware/main.go with tee.go and tee_tee_enabled.go: the start of the
--                  firmware in its two builds; firmware/utils_debug.go: rebootWatcher
--   Device/Linux   cmd/wallera-linux/main.go: Rx of the Linux gadget
--   Device/Linux/Goroutines   cmd/wallera-linux/main.go: the goroutines of rx and tx
--   Device/Linux/Main         cmd/wallera-linux/main.go and gadget_hid.go: main, configureHidg
--   Device/Setup   usb.go: the HID descriptor and the setup function
--   Device/Configure  usb.go and firmware/usb.go: ConfigureUSB, startUSB
--   Tz             tee/trusted_os/tz/tz.go and types/types.go: the mailboxes
--   Tz/Log         tee/trusted_os/tz/log.go: the line buffers
--   Tz/Config      tee/mem/layout.go and tz.go: the memory layout, configureTrustZone
--   Tz/Syscall     tz.go: logHandler, nonsecureWorldHandler, run and RunNonsecureWorld
--   Tz/Rpc         tz.go and tz/client/client.go: the calls between the worlds
--   Tz/Boot        tz.go and tee/trusted_os/main.go: RegisterApp, LoadNonsecureWorld, main
--   Tee            tee/cryptography_applet/token/request.go: the requests of the applet, Dispatch
--   Tee/Client     tee/cryptography_applet/token/client/tee_token.go and main.go: TEEToken,
--                  doRequest, and the applet
--   Tee/OverRpc, Tee/CutShort  tee_token.go and tz/client/client.go: doRequest with the
--                  transport of its calls
--   Tee/TeeToken   tee/cryptography_applet/token/client/tee_token.go: TEEToken as a Token
--   Tee/SecureToken  tee/cryptography_applet/token/token.go: the applet's own token
--   Tee/Demo       tee/nonsecure_demo_os/main.go: the demonstration of the non-secure world
--   Tz/Boot/Programs  the memory that tee/trusted_os, tee/cryptography_applet,
--                  tee/nonsecure_demo_os and
--                  firmware/tee_tee_enabled.go are linked for
--   GenCert        cmd/gen-cert/main.go: the tool that makes a key and a certificate
-- Common holds the shared names and what the sources use of Go. The modules named Examples
-- apply the theorems to concrete input; Apps/Toy, Crypto/Toy, Tee/Toy and Device/Configure/Toy
-- have small stand-ins for third-party code.
--
-- How Go is modelled. A method with a pointer receiver takes the old state and returns the new
-- one. The application's token and its clone are two objects, since `Initialize` writes to the
-- one it is called on. `Outcome` is a run that returns or panics, `Result` a value or an error.
-- Integers are natural numbers, with `% 2 ^ w` where a w-bit type wraps around. A slice is its
-- elements and those between its length and its capacity, since slice expressions reach up to
-- the capacity; a `bytes.Buffer` is such a slice, and the spare capacity that the allocator
-- leaves is a parameter `grow`. Maps are association lists. Loops are structural recursion:
-- over the list that is ranged over, or in `chunk_loop` over the number of rounds that are
-- left, which is the loop's own count, so that no fuel is needed.
--
-- Parameters: the APDU parser (`unmarshal`), the token of an application (`Token`), hashes,
-- bech32 and the JSON check (`Libraries`), hdkeychain, btcec and bip39 (`Keychain`), the random
-- source with the size from which a slice cannot be made (`Random`), HMAC, the request numbers
-- and descriptors of the USB library, JSON and base64 (`Json`), what a fatal log message does
-- to an applet, and in Tz the run of an applet (`run_ta`), which Tee fills in, the constants of
-- the board (`Soc`), which calls of its drivers fail (`fails`), the libraries of the
-- certificate tool (`Pki`), the C functions and the files of the Linux gadget (`Gadgets`), what
-- becomes of the firmware's `main` while the USB controller runs (`run`), what GoTEE does for a
-- system call (`Monitor`) and to load an image (`Loader`), and what the controller of the
-- memory grants after some calls (`attributes`).
--
-- How the builds are put together. Device/Firmware/Wallet is the firmware over any token,
-- Wallet/Software that of the plain build over the software token, and Wallet/Secure that of
-- the build with the trusted environment, where each call of the token goes through the
-- mailboxes of Tz to the applet of Tee and back. Tee/Direct is why such a call can be read as
-- one step: it leaves no mail and no result behind, and Tee/OverRpc has the same request over a
-- transport (`Transport`). What differs between the builds is a record in Device/Main.
--
-- Not modelled: logging; the streams below the calls between the worlds (`Transport` stands for
-- them), of which tee/trusted_os/nonsecuresyscall is a copy of the library's; set-up of clocks,
-- memory and serial ports of the boards; the C functions of the Linux gadget; generated names
-- of constants.
pub mod Common
pub mod Usb
pub mod Crypto
pub mod Apps
pub mod Device
pub mod Tz
pub mod Tee
pub mod GenCert
