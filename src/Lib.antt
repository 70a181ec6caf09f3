-- ===== src/Lib.antt =====
-- Verification of ledfw-lib, the firmware library of a DMX-controlled LED driver.
--
-- The program. LED threads (`led::thread`) render colours into two byte buffers through a WS2812
-- transcoder and send them alternately over an SPI transport. A DMX thread receives packets in frames
-- and hands their slots to subscribers, among them the LED threads. Configuration parameters live in
-- flash behind a RAM cache with subscribers, under a reader-writer lock. A user application is loaded
-- into RAM, from flash or from a Bluetooth client, and described by a descriptor at its start; its own thread
-- serves the queue of actions by which clients write, store and run it. Each LED channel has a Bluetooth
-- service that changes its configuration and its colours.
--
-- The files, and the code that they model:
--   Common      Boolean tests, arrays as lists, `size_t` arithmetic, `ret_code_t` (include/def/errors.def)
--   RwLock      `task::rw_lock`: include/task.hh and src/core/task.cc. `Move` is one semaphore call or
--               counter update of `read` or `write`, `Step` and `Reach` interleave any number of tasks.
--   Buffer      `buffer`: include/util.hh and src/core/buffer.cc
--   Fifo        the bounded queue that specifies `circbuf`; Queue is the interface with its laws
--   Circbuf     `circbuf` of include/util.hh, an instance of Queue
--   Framebuf    `framebuf` of include/util.hh, over two Queues
--   Transcode   `transcode_8mhz` and `transcode_8mhz_alt`: src/periph/spi_transcode.cc and
--               src/periph/spi_transcode_alt.cc, writing to a Buffer
--   Spi         `spi::transport`: include/periph/spi.hh and src/periph/spi.cc
--   Lock        `task::lock` and its guards: include/task/lock.hh
--   Gc          the garbage collection task of src/core/task.cc
--   Led         `led::thread`: include/led/thread.hh and src/led/thread.cc, over Spi and Transcode
--   Uarte       the receiver of DMX frames: include/periph/uarte.hh and src/periph/uarte.cc
--   Dmx         `dmx::thread`: include/dmx/thread.hh and src/dmx/thread.cc
--   Cfg         include/cfg/ids.hh, the cache and the flash thread (Store) of src/cfg/flash_backend.cc, and the typed
--               parameters of include/cfg.hh over the cache
--   Userapp     Desc: `userapp::desc` (include/userapp/desc.hh, src/userapp/desc.cc); Upload: the buffer in RAM and
--               Default: the default application (src/core/userapp.cc); Flash: the records of the application in
--               flash (src/core/userapp.cc) over the interface Fds with the laws FdsLaws; Thread: the thread and
--               its queue (src/userapp/thread.cc, include/userapp/thread.hh); Program: the writes of clients that
--               fill it (src/ble/userapp.cc), with whole sessions in Session; Explorer: the messages about personalities
--               and slots (src/ble/userapp.cc), and Client, which reads them
--   Ble         Leds: the service of an LED channel (src/ble/led.cc, src/ble/led_impl.cc), with `render` over
--               Transcode, Buffer and the user application; Service: characteristics (src/ble/service.cc,
--               include/ble/service.hh); Chars and Register: all services and characteristics, their
--               registration and the way of a write to its handler (src/ble/service.cc and the four services);
--               Dmx: the service of DMX values and configuration (src/ble/dmx.cc); Info: what clients are told
--               of the application (src/ble/userapp.cc); Conn, Events and Advdata: the connection rate, the
--               event handlers and the advertising data (src/core/ble.cc)
--   Tests       runs at concrete inputs
--
-- Conventions. A function of the source is a definition of its name; a changed object is a result, and
-- a status is a `Status`. Numbers are natural; `size_t` has 32 bits, and its wrap-around is written out
-- where a sum or difference may leave them. A null pointer is `none`. What the SDK, FreeRTOS and the
-- build configuration provide is an argument: statuses of driver and flash calls, created handles,
-- `uint16_decode`, `crc16_compute`, MAX_LED_CHANNELS and the like; so is `VERIFY_SUCCESS2`, which the repository
-- uses and does not define. Most loops are structural recursions on the bound that the source gives them. The
-- loops over flash records have fuel: a record has one word or more and an application has 1024 words, so more
-- than 1024 passes are enough, and a loop that needs more is an outcome of its own. The loop of sequential
-- writes has as many passes as its event has bytes, and reads three in each; the store of a parameter, which
-- is tried again after a collection, needs two.
--
-- What the code takes for granted is a hypothesis where a theorem needs it: that an operation on flash that was
-- queued is completed with success (Completes), and that cached data is unchanged until FDS reads it. An assertion
-- of Circbuf that fails calls an error handler outside the repository, which may return or not.
--
-- Not modelled: the set-up of the SoftDevice and its modules in `ble::init` and the pins and modes of the drivers, which
-- are calls of the SDK; start-up, logging, device information and the commands of the device
-- service; colour conversion, which is floating point; the init functions that only create tasks.
pub mod Common
pub mod Buffer
pub mod Transcode
pub mod RwLock
pub mod Lock
pub mod Gc
pub mod Cfg
pub mod Ble
pub mod Userapp
pub mod Uarte
pub mod Fifo
pub mod Queue
pub mod Circbuf
pub mod Framebuf
pub mod Spi
pub mod Led
pub mod Dmx
pub mod Tests
