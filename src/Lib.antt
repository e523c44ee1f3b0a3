-- ===== src/Lib.antt =====
-- Verification of iland, the Linux graphics layer of dependencies/libs/iland, which lets Wayland
-- compositors written for Linux run on the operating systems of Apple: shims that answer the calls of
-- libdrm, epoll and their kin.
--
-- Drm models upstream/shims/drm/drm/src/drm_linux.c, the DRM/KMS emulation (paths are those below
-- dependencies/libs/iland). A client opens the virtual descriptor 42, makes buffers and framebuffers,
-- lists modes, sets properties, and shows frames by page flips or atomic commits; frames go to a
-- callback of the host, or to the daemon framebufferd.
--   Drm/Buffers: drmModeCreateDumbBuffer, drmModeDestroyDumbBuffer, drmModeMapDumbBuffer, the GBM
--     handle table, drmModeAddFB, drmModeAddFB2, drmModeRmFB and fb_id_to_surface, on a state that
--     also holds the reference count of every IOSurface. Children: Framebuffers (the calls from
--     drmModeAddFB on); and the proofs Cases (what each call changes), Ownership and Handles (the
--     two parts of the invariant), Safety, Lookups and Gbm.
--   Drm/Modes: iland_drm_set_preferred_mode, init_modes and drmModeGetConnector.
--   Drm/Props: the property definitions. Children: Records (the values of each object), and the
--     proofs Values and Defaults. Drm/Blobs: property blobs.
--   Drm/Device: the whole state, and the calls that set or report parts of it.
--   Drm/Flip: drmModePageFlip and drmHandleEvent. Drm/Objects: drmModeGetProperty,
--     drmModeObjectGetProperties, drmModeGetPlaneResources and drmModeGetPlane.
--   Drm/Atomic: atomic requests and drmModeAtomicCommit. Drm/Stubs: the calls without state.
-- Epoll models parts of upstream/shims/epoll/src, the emulation of epoll on kqueue.
--   Epoll/KQueue: kqueue_event.c. Epoll/EventFd: eventfd_ctx.c. Epoll/Timespec: timespec_util.c.
--   Epoll/Timer: timerfd_ctx.c, the timer behind a descriptor. Children: Kevents (the clocks and the
--     changes of the kqueue), Calls (timerfd_ctx_settime and timerfd_ctx_gettime), Reading
--     (timerfd_ctx_read); and the proofs Clocks, Expirations, Intervals, Arming, Remaining, Settings,
--     ReadCounts and Positive.
--   Epoll/EpollFd: epollfd_ctx.c, the descriptors that an epoll descriptor watches. Children: Filters
--     (get_needed_filters), Table (the tree of the nodes), Registration
--     (epollfd_ctx__register_events), Control (epollfd_ctx_ctl), Feeding
--     (registered_fds_node_feed_event); and the proofs Needed, Registering, Receipts, Leaving,
--     Account, Contract, Refinement, Leftover and Reports.
--   Epoll/RwLock: rwlock.c, the readers-writer lock, as a step relation: each step is one atomic
--     operation or one operation of a semaphore, by any thread, and the threads at one place of the
--     code are counted. Children: Exclusion, the invariant of each phase of the writer, and
--     Progress, the run that lets a waiting writer in.
--   Epoll/Shim: epoll_shim_ctx.c, the descriptions behind the descriptors and the table of them, over
--     the functions of the contexts, which are a parameter: a context keeps references to other
--     descriptions and gives them back. Children: References, OpenFiles and Calls (the operations);
--     the proofs Room, Counts, Balance, Creating, Opening, Forgetting, Closing and Reading, each for a
--     call that nothing interrupts; and Detector, the threads that watch for steps of the realtime
--     clock.
-- Input models upstream/shims/libinput/input/libinput.c, which makes input events of the messages of
-- a daemon.
--   Input/Events: the structures. Input/Queue: the linked queue of events. Input/Receive:
--   recv_thread. Input/Calls: the calls of the client, and the steps of both. The proofs are Pressed
--   (the counts of keys and buttons), Edges (what is reported of a key), Fifo and Delivery (the
--   queue), Stopping (libinput_unref) and Slots (the table of devices).
-- Common holds the tests on numbers, arrays as lists, the outcomes of calls and the lemmas on
-- searches in arrays that the parts share.
--
-- A call of the source is a function from the state and its arguments to the new state and an
-- outcome, which carries errno. Globals are fields of the state. A C array is a list; where a number
-- 0 or a null pointer marks a free slot, the list has the array's length, else it holds the used
-- part. Numbers are natural numbers, with the wrap-around of a fixed width written out where the
-- source can wrap. The handle counters wrap at 2 ^ 32; theorems that need handles to be distinct
-- assume that they have not wrapped yet.
--
-- What the system does is an argument of the model: whether memory is given, the surface that
-- DisplaySurface_create makes, the display's rate and property list, the result of the message to
-- framebufferd. The event pipe is a list of bytes without the kernel's limit on its length, and the
-- pipe of the input library a count of bytes without one. The kqueue is a record of operations with
-- the laws of its documentation. The loop that empties it runs on fuel, the number of pending
-- events, and `drain-pending` shows that this ends the loop. Giving references back runs on the
-- number of the references that are left, which `release-Released` shows to be enough, and the
-- search for a size of the table on 32 rounds. Timers and epoll descriptors log the changes that go
-- to their kqueue, and take its answers, the clocks, the boot time, fstat and the results of poll
-- as arguments. The red-black tree of the epoll descriptor is a record of operations with its laws,
-- which an array implements. An assertion of the source that fails is the outcome `aborted`. The
-- build is the one for macOS: with EVFILT_USER, EVFILT_EXCEPT and NOTE_USECONDS, and with
-- EPOLLRDHUP as 0x2000.
--
-- Not modelled: freeing results, timestamps of events, locking of surfaces, the JSON text of the
-- messages; of the epoll emulation the failures of rwlock_init, fcntl and poll, the loop of
-- epollfd_ctx_wait, other calls between the two parts of epoll_shim_close, signals and the public
-- calls above the descriptors; threads that poll at the same time, which epollfd_ctx.c waits for
-- and the model takes as gone after it; the ioctl front end, the input daemon, EGL, GBM for
-- Android, and the parts in Objective-C, which are the system's services or other programs.
pub mod Common
pub mod Drm
pub mod Epoll
pub mod Input
